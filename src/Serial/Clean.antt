-- ===== src/Serial/Clean.antt =====
-- What `Serial::Read` hands to the devices.
use powerguru.Prelude.{
  ℕ, zero, suc, ◌+◌, ◌≤◌, ◌<◌, ◌≡◌, ◌≢◌, refl, true, ◌||◌, ◌==◌, if◌then◌else◌, [], ◌∷◌, Text,
  length, All, arith, Bool-cases, inl, inr, ◌⊎◌,
}
use powerguru.Prelude.Int.{ℤ, pos, negsuc}
use powerguru.Serial.{
  Wait, timeout, again, other, Input, failed, bytes, Round, Reading, filter_line, is_empty_read,
  input_count, input_text, read_loop, read,
}

-- An ASCII character that does not end a line.
abbrev pub IsClean : ℕ → Type 0
IsClean c = (c < 128) × (c ≢ 10) × (c ≢ 13)

pub filter_line-IsClean : (s : Text) → All IsClean (filter_line s)
unfolding filter_line
filter_line-IsClean [] = tt
filter_line-IsClean (c ∷ s) = ground (arith, filter_line-IsClean s)

-- A clean text passes as it is.
pub filter_line-clean : (s : Text) → All IsClean s → filter_line s ≡ s
unfolding filter_line
filter_line-clean [] h = refl
filter_line-clean (c ∷ s) h = ground (arith, filter_line-clean s h.1)

length-filter_line : (s : Text) → length (filter_line s) ≤ length s
unfolding filter_line
length-filter_line [] = omega arith
length-filter_line (c ∷ s) = ground (arith, length-filter_line s)

-- What a reading promises: clean bytes, at most `nbytes` of them, and their number if there are any.
pub record IsReading (nbytes : ℕ) (r : Reading) : Type 0 where
  pub clean : All IsClean r.buf
  pub fits : length r.buf ≤ nbytes
  pub counted : (r.buf ≡ []) ⊎ (r.count ≡ pos (length r.buf))

abbrev pub Fits : ℕ → (ℕ → Round) → Type 0
Fits nbytes kernel = (i : ℕ) → length (input_text (kernel i).input) ≤ nbytes

nil-of_length : (s : Text) → length s ≡ 0 → s ≡ []
nil-of_length [] h = refl
nil-of_length (c ∷ s) h = absurd (omega arith)

empty-IsReading : (nbytes : ℕ) (ret : ℤ) → IsReading nbytes (record { count = ret; buf = [] })
empty-IsReading nbytes ret = record { clean = tt; fits = omega arith; counted = inl refl }

full-IsReading :
    (nbytes : ℕ) (s : Text)
    → length s ≤ nbytes
    → IsReading nbytes (record { count = pos (length (filter_line s)); buf = filter_line s })
full-IsReading nbytes s h = record {
  clean = filter_line-IsClean s;
  fits = omega (arith, length-filter_line s);
  counted = inr refl;
}

read_loop-IsReading :
    (nbytes retries i : ℕ) (kernel : ℕ → Round) (ret : ℤ) (sofar : Text)
    → Fits nbytes kernel
    → sofar ≡ []
    → IsReading nbytes (read_loop retries i kernel ret sofar)
unfolding read_loop
read_loop-IsReading nbytes zero i kernel ret sofar h e = rw e (empty-IsReading nbytes ret)
read_loop-IsReading nbytes (suc retries) i kernel ret sofar h e = rw e (
    round (kernel i).wait (kernel i).input (h i)
      (λ ret' sofar' e'. read_loop-IsReading nbytes retries (i + 1) kernel ret' sofar' h e'))
  where
    round :
        (w : Wait) (inp : Input)
        → length (input_text inp) ≤ nbytes
        → ((ret' : ℤ) (sofar' : Text)
            → sofar' ≡ []
            → IsReading nbytes (read_loop retries (i + 1) kernel ret' sofar'))
        → IsReading nbytes (elim w [
          | timeout ↦ record { count = pos 0; buf = [] }
          | again ↦ record { count = negsuc 0; buf = [] }
          | other ↦
              if is_empty_read inp || length (filter_line (input_text inp)) == 0
              then read_loop retries (i + 1) kernel (input_count inp) (filter_line (input_text inp))
              else record {
                count = pos (length (filter_line (input_text inp)));
                buf = filter_line (input_text inp);
              }
        ])
    round timeout inp k next = empty-IsReading nbytes _
    round again inp k next = empty-IsReading nbytes _
    round other failed k next = next _ _ refl
    round other (bytes s) k next =
        elim (Bool-cases (length s == 0 || length (filter_line s) == 0)) [
          | inl q ↦ rw q (next _ _ (nil-of_length _ (ground (arith, length-filter_line s))))
          | inr q ↦ rw q (full-IsReading nbytes s k)
        ]

-- What a read leaves in the buffer is clean ASCII text without line ends, no longer than the buffer,
-- and if it is not empty the result is its length; whatever the kernel answers in the two rounds.
pub read-IsReading :
    (nbytes : ℕ) (kernel : ℕ → Round) (buf : Text)
    → Fits nbytes kernel
    → IsReading nbytes (read true kernel buf)
unfolding read
read-IsReading nbytes kernel buf h = read_loop-IsReading nbytes 2 0 kernel (negsuc 0) [] h refl

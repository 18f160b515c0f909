-- ===== src/Outback/Checksum/Sums.antt =====
-- The two loops of `outback::calcChecksum` against what they are for: the digits of the page
-- without its separators, and the checksum field without its zeros.
use powerguru.Prelude.{
  ℕ, zero, suc, ◌+◌, ◌≤◌, ◌<◌, ◌≡◌, refl, ap, true, false, List, [], ◌∷◌, ◌++◌, arith, leb, ◌==◌,
  if◌then◌else◌, Text, length, sym, ◌∙◌, append_assoc, length-append,
}
use powerguru.Prelude.Int.{ℤ, pos, ◌+ℤ◌, ◌-ℤ◌, +ℤ_assoc}
use powerguru.Outback.Device.{done, char_at, char_int}
use powerguru.Outback.Checksum.{strip_zeros, add_char, sum_loop, loop_fuel}

leb-of_le : (a b : ℕ) → a ≤ b → leb a b ≡ true
leb-of_le a b h = ground arith

leb-of_lt : (a b : ℕ) → b < a → leb a b ≡ false
leb-of_lt a b h = ground arith

-- The value of a page: each byte that is no separator counts for itself less `'0'`.
unfoldable pub page_sum : Text → ℤ
page_sum [] = pos 0
page_sum (c ∷ s) =
    if c == b','
    then page_sum s
    else if c == b'*'
    then page_sum s
    else (char_int c -ℤ pos b'0') +ℤ page_sum s

unfoldable pub without_zeros : Text → Text
without_zeros [] = []
without_zeros (c ∷ s) = if c == b'0' then without_zeros s else c ∷ without_zeros s

pub char_at-append :
    (s : Text) (c : ℕ) (t : Text) (i : ℕ) → i ≡ length s → char_at (s ++ c ∷ t) i ≡ done c
unfolding char_at
char_at-append [] c t zero h = refl
char_at-append [] c t (suc i) h = absurd (omega arith)
char_at-append (d ∷ s) c t zero h = absurd (omega arith)
char_at-append (d ∷ s) c t (suc i) h = char_at-append s c t i (omega arith)

+ℤ_zero : (a : ℤ) → a +ℤ pos 0 ≡ a
unfolding ◌+ℤ◌
+ℤ_zero a = ground arith

add_char-page_sum :
    (c : ℕ) (acc : ℤ) (s : Text) → add_char c acc +ℤ page_sum s ≡ acc +ℤ page_sum (c ∷ s)
unfolding add_char page_sum
add_char-page_sum c acc s = ground (arith, +ℤ_assoc acc (char_int c -ℤ pos b'0') (page_sum s))

append_concat {ℓ} :
    {A : Type ℓ} (xs : List A) (x : A) (ys : List A) → (xs ++ x ∷ []) ++ ys ≡ xs ++ x ∷ ys
append_concat xs x ys = append_assoc xs (x ∷ []) ys

-- The loop from `ptr` adds the value of what is left of the first 45 bytes.
pub sum_loop_lem :
    (fuel ptr : ℕ) (before s rest : Text) (acc : ℤ)
    → fuel + ptr ≡ 45
    → ptr ≡ length before
    → fuel ≡ length s
    → ptr < 45
    → sum_loop fuel ptr (before ++ (s ++ rest)) acc ≡ done (acc +ℤ page_sum s)
unfolding sum_loop page_sum
sum_loop_lem zero ptr before s rest acc e b l h = absurd (omega arith)
sum_loop_lem (suc fuel) ptr before [] rest acc e b l h = absurd (omega arith)
sum_loop_lem (suc zero) ptr before (c ∷ []) rest acc e b l h =
    rw (char_at-append before c rest ptr b, leb-of_lt (ptr + 1) 44 (omega arith))
      (ap done (sym (+ℤ_zero (add_char c acc)) ∙ add_char-page_sum c acc []))
sum_loop_lem (suc zero) ptr before (c ∷ d ∷ s) rest acc e b l h = absurd (omega arith)
sum_loop_lem (suc (suc fuel)) ptr before (c ∷ s) rest acc e b l h =
    rw (char_at-append before c (s ++ rest) ptr b, leb-of_le (ptr + 1) 44 (omega arith))
      (rw (← append_concat before c (s ++ rest)) (
        sum_loop_lem (suc fuel) (ptr + 1) (before ++ c ∷ []) s rest (add_char c acc) (omega arith)
          (omega (arith, length-append before (c ∷ []))) (omega arith) (omega arith)
        ∙ ap done (add_char-page_sum c acc s)))

zero_+ℤ : (a : ℤ) → pos 0 +ℤ a ≡ a
unfolding ◌+ℤ◌
zero_+ℤ a = ground arith

-- The second loop over a page of 45 bytes and more.
pub sum_loop-body :
    (body rest : Text)
    → length body ≡ 45
    → sum_loop loop_fuel 0 (body ++ rest) (pos 0) ≡ done (page_sum body)
sum_loop-body body rest l =
    sum_loop_lem 45 0 [] body rest (pos 0) (omega arith) (omega arith) (omega arith) (omega arith)
    ∙ ap done (zero_+ℤ (page_sum body))

-- The first loop over the three bytes of the field.
pub strip_zeros-field :
    (body : Text) (a b c : ℕ) (rest : Text)
    → length body ≡ 45
    → strip_zeros 3 45 (body ++ a ∷ b ∷ c ∷ rest) ≡ done (without_zeros (a ∷ b ∷ c ∷ []))
unfolding strip_zeros without_zeros
strip_zeros-field body a b c rest l =
    let second : char_at (body ++ a ∷ b ∷ c ∷ rest) 46 ≡ done b =
      rw (← append_concat body a (b ∷ c ∷ rest)) (
        char_at-append (body ++ a ∷ []) b (c ∷ rest) 46
          (omega (arith, length-append body (a ∷ [])))) in
    let third : char_at (body ++ a ∷ b ∷ c ∷ rest) 47 ≡ done c =
      rw (← append_concat body a (b ∷ c ∷ rest), ← append_concat (body ++ a ∷ []) b (c ∷ rest))
        (char_at-append ((body ++ a ∷ []) ++ b ∷ []) c rest 47
          (omega (arith, length-append body (a ∷ []), length-append (body ++ a ∷ []) (b ∷ [])))) in
    rw (char_at-append body a (b ∷ c ∷ rest) 45 (sym l), second, third) (ground arith)

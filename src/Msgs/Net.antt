-- ===== src/Msgs/Net.antt =====
-- lib/tcpip.cc: `Tcpip::writeNet`, over what the kernel answers to `select` and `write`.
use powerguru.Prelude.{
  ℕ, zero, suc, ◌+◌, ◌≤◌, ◌≡◌, ◌≢◌, refl, Bool, true, false, ◌==◌, if◌then◌else◌, arith, ◌⊎◌, inl,
  inr, Bool-cases, ap, ◌∙◌,
}
use powerguru.Prelude.Int.{ℤ, pos, negsuc}
use powerguru.Std.Run.{Run, done, undefined}

pub data Ready : Type 0 where
  failed timed_out ready : Ready

-- What `select` says in a round, and what `write` returns if it is called.
pub record Answer : Type 0 where
  pub select : Ready
  pub write : ℤ

-- The loop behind a partial write: `bufptr` moved, but the next call is for `nbytes` bytes again, which
-- reaches behind the buffer.
unfoldable pub stalled : ℕ → ℕ → (ℕ → Answer) → ℤ → Run ℤ
stalled zero i kernel ret = done ret
stalled (suc rounds) i kernel ret = elim (kernel i).select [
  | failed ↦ stalled rounds (i + 1) kernel (negsuc 0)
  | timed_out ↦ stalled rounds (i + 1) kernel (pos 0)
  | ready ↦ undefined
]

-- What the code makes of a call of `write`: `rounds` are left, and a partial write gives one back.
unfoldable pub written : ℕ → ℕ → ℕ → (ℕ → Answer) → ℤ → Run ℤ
unfolding stalled
written nbytes rounds i kernel (negsuc n) = done (negsuc n)
written nbytes rounds i kernel (pos n) =
    if n == 0
    then done (pos 0)
    else if n == nbytes
    then done (pos n)
    else stalled (rounds + 1) (i + 1) kernel (pos n)

-- `while (retries-- > 1)` with the rounds that are left, from the round `i`.
unfoldable pub write_loop : ℕ → ℕ → ℕ → (ℕ → Answer) → ℤ → Run ℤ
unfolding written
write_loop nbytes zero i kernel ret = done ret
write_loop nbytes (suc rounds) i kernel ret = elim (kernel i).select [
  | failed ↦ write_loop nbytes rounds (i + 1) kernel (negsuc 0)
  | timed_out ↦ write_loop nbytes rounds (i + 1) kernel (pos 0)
  | ready ↦ written nbytes rounds i kernel (kernel i).write
]

-- `writeNet` of `nbytes` bytes: `retries` = 3 allows two rounds; without a socket it gives -1.
unfoldable pub write_net : Bool → ℕ → (ℕ → Answer) → Run ℤ
unfolding write_loop
write_net has_socket nbytes kernel =
    if has_socket then write_loop nbytes 2 0 kernel (pos 0) else done (negsuc 0)

-- The number is not positive.
abbrev pub IsFailure : ℤ → Type 0
IsFailure (pos n) = n ≡ 0
IsFailure (negsuc n) = Unit

-- In some round a part was written.
abbrev pub HasPart : ℕ → (ℕ → Answer) → Type 0
HasPart nbytes kernel = (i : ℕ) × (k : ℕ) × ((kernel i).write ≡ pos k) × (k ≢ 0) × (k ≢ nbytes)

-- How `writeNet` ends: with all bytes written, with a failure, or, where a part was written, in a call
-- of `write` that reaches behind the buffer.
pub data Outcome (nbytes : ℕ) (kernel : ℕ → Answer) (r : Run ℤ) : Type 0 where
  whole : r ≡ done (pos nbytes) → Outcome nbytes kernel r
  failure : (n : ℤ) → r ≡ done n → IsFailure n → Outcome nbytes kernel r
  part : r ≡ undefined → HasPart nbytes kernel → Outcome nbytes kernel r

-- One proof for each answer of `select`.
each_answer :
    (P : Run ℤ → Type 0) (s : Ready) (a b c : Run ℤ)
    → P a
    → P b
    → P c
    → P (elim s [ failed ↦ a | timed_out ↦ b | ready ↦ c ])
each_answer P failed a b c pa pb pc = pa
each_answer P timed_out a b c pa pb pc = pb
each_answer P ready a b c pa pb pc = pc

stalled_lem :
    (nbytes rounds i : ℕ) (kernel : ℕ → Answer) (ret : ℤ)
    → HasPart nbytes kernel
    → IsFailure ret ⊎ (1 ≤ rounds)
    → Outcome nbytes kernel (stalled rounds i kernel ret)
unfolding stalled
stalled_lem nbytes zero i kernel ret h (inl f) = failure ret refl f
stalled_lem nbytes zero i kernel ret h (inr f) = absurd (omega arith)
stalled_lem nbytes (suc rounds) i kernel ret h _ =
    each_answer (Outcome nbytes kernel) (kernel i).select _ _ _
      (stalled_lem nbytes rounds (i + 1) kernel (negsuc 0) h (inl tt))
      (stalled_lem nbytes rounds (i + 1) kernel (pos 0) h (inl refl)) (part refl h)

written_lem :
    (nbytes rounds i : ℕ) (kernel : ℕ → Answer) (w : ℤ)
    → (kernel i).write ≡ w
    → Outcome nbytes kernel (written nbytes rounds i kernel w)
unfolding written
written_lem nbytes rounds i kernel (negsuc n) e = failure (negsuc n) refl tt
written_lem nbytes rounds i kernel (pos n) e = elim (Bool-cases (n == 0)) [
  | inl z ↦ rw z (failure (pos 0) refl refl)
  | inr z ↦ elim (Bool-cases (n == nbytes)) [
    | inl all ↦ rw (z, all) (whole (ap (λ k. done (pos k)) (ground arith)))
    | inr piece ↦
        rw (z, piece)
          (stalled_lem nbytes (rounds + 1) (i + 1) kernel (pos n)
            (i, n, e, ground arith, ground arith) (inr (omega arith)))
  ]
]

write_loop_lem :
    (nbytes rounds i : ℕ) (kernel : ℕ → Answer) (ret : ℤ)
    → IsFailure ret
    → Outcome nbytes kernel (write_loop nbytes rounds i kernel ret)
unfolding write_loop
write_loop_lem nbytes zero i kernel ret h = failure ret refl h
write_loop_lem nbytes (suc rounds) i kernel ret h =
    each_answer (Outcome nbytes kernel) (kernel i).select _ _ _
      (write_loop_lem nbytes rounds (i + 1) kernel (negsuc 0) tt)
      (write_loop_lem nbytes rounds (i + 1) kernel (pos 0) refl)
      (written_lem nbytes rounds i kernel (kernel i).write refl)

-- `writeNet` writes all bytes, or reports a failure, or the kernel wrote a part in some round and the
-- next call of `write` reaches behind the buffer: a part is never reported as a success.
pub write_net-Outcome :
    (has_socket : Bool) (nbytes : ℕ) (kernel : ℕ → Answer)
    → Outcome nbytes kernel (write_net has_socket nbytes kernel)
unfolding write_net
write_net-Outcome true nbytes kernel = write_loop_lem nbytes 2 0 kernel (pos 0) refl
write_net-Outcome false nbytes kernel = failure (negsuc 0) refl tt

-- Where the kernel takes all the bytes at once, `writeNet` returns their number.
pub write_net-at_once :
    (nbytes : ℕ) (kernel : ℕ → Answer)
    → (kernel 0).select ≡ ready
    → (kernel 0).write ≡ pos nbytes
    → write_net true nbytes kernel ≡ done (pos nbytes)
unfolding write_net written
write_net-at_once nbytes kernel e w =
    ap
      (λ s. elim s [
        | failed ↦ write_loop nbytes 1 1 kernel (negsuc 0)
        | timed_out ↦ write_loop nbytes 1 1 kernel (pos 0)
        | ready ↦ written nbytes 1 0 kernel (kernel 0).write
      ])
      e
    ∙ ap (written nbytes 1 0 kernel) w
    ∙ ground arith

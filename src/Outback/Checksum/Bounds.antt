-- ===== src/Outback/Checksum/Bounds.antt =====
-- Where `outback::calcChecksum` reads: the C string must hold 47 bytes, its NUL being the 48th.
use powerguru.Prelude.{
  ℕ, zero, suc, ◌+◌, ◌≤◌, ◌<◌, ◌≡◌, refl, [], ◌∷◌, arith, leb, ◌==◌, if◌then◌else◌, Text, length,
  ◌⊎◌, inl, inr, Bool-cases,
}
use powerguru.Prelude.Int.{ℤ, pos}
use powerguru.Std.Strtol.{strtol}
use powerguru.Outback.Device.{RetCode, success, error, done, undefined, char_at}
use powerguru.Outback.Checksum.{strip_zeros, add_char, sum_loop, eq_int, calc_checksum}

pub char_at-done : (s : Text) (i : ℕ) → i ≤ length s → (c : ℕ) × (char_at s i ≡ done c)
unfolding char_at
char_at-done [] zero h = (0, refl)
char_at-done [] (suc i) h = absurd (omega arith)
char_at-done (c ∷ s) zero h = (c, refl)
char_at-done (c ∷ s) (suc i) h = char_at-done s i (omega arith)

pub char_at-undefined : (s : Text) (i : ℕ) → length s < i → char_at s i ≡ undefined
unfolding char_at
char_at-undefined [] zero h = absurd (omega arith)
char_at-undefined [] (suc i) h = refl
char_at-undefined (c ∷ s) zero h = absurd (omega arith)
char_at-undefined (c ∷ s) (suc i) h = char_at-undefined s i (omega arith)

strip_zeros-done :
    (rounds index : ℕ) (s : Text)
    → index + rounds ≤ length s + 1
    → (chk : Text) × (strip_zeros rounds index s ≡ done chk)
unfolding strip_zeros
strip_zeros-done zero index s h = ([], refl)
strip_zeros-done (suc rounds) index s h =
    let (c, e) = char_at-done s index (omega arith) in
    let (chk, e') = strip_zeros-done rounds (index + 1) s (omega arith) in
    (if c == b'0' then chk else c ∷ chk, rw (e, e') refl)

strip_zeros-undefined :
    (rounds index : ℕ) (s : Text)
    → 0 < rounds
    → length s + 1 < index + rounds
    → strip_zeros rounds index s ≡ undefined
unfolding strip_zeros
strip_zeros-undefined zero index s p h = absurd (omega arith)
strip_zeros-undefined (suc zero) index s p h = rw (char_at-undefined s index (omega arith)) refl
strip_zeros-undefined (suc (suc rounds)) index s p h = elim (Bool-cases (leb index (length s))) [
  | inl q ↦
      let (c, e) = char_at-done s index (ground arith) in
      rw (e, strip_zeros-undefined (suc rounds) (index + 1) s (omega arith) (omega arith)) refl
  | inr q ↦ rw (char_at-undefined s index (ground arith)) refl
]

sum_loop-done :
    (fuel ptr : ℕ) (s : Text) (acc : ℤ)
    → ptr + fuel ≤ length s + 1
    → (v : ℤ) × (sum_loop fuel ptr s acc ≡ done v)
unfolding sum_loop
sum_loop-done zero ptr s acc h = (acc, refl)
sum_loop-done (suc fuel) ptr s acc h =
    let (c, e) = char_at-done s ptr (omega arith) in
    elim (Bool-cases (leb (ptr + 1) 44)) [
      | inl q ↦
          let (v, e') = sum_loop-done fuel (ptr + 1) s (add_char c acc) (omega arith) in
          (v, rw (e, q) e')
      | inr q ↦ (add_char c acc, rw (e, q))
    ]

-- The checksum is computed for every text of 47 bytes and more; for a shorter one the code reads
-- behind the terminating NUL.
pub calc_checksum_defined :
    (packet : Text)
    → (47 ≤ length packet) × ((r : RetCode) × (calc_checksum packet ≡ done r))
      ⊎ (length packet < 47) × (calc_checksum packet ≡ undefined)
unfolding calc_checksum
calc_checksum_defined packet = elim (Bool-cases (leb 47 (length packet))) [
  | inl q ↦
      let (chk, e) = strip_zeros-done 3 45 packet (ground arith) in
      let (v, e') = sum_loop-done 45 0 packet (pos 0) (ground arith) in
      inl (ground arith, (if eq_int v (strtol chk) then success else error, rw (e, e') refl))
  | inr q ↦
      inr (ground arith, rw (strip_zeros-undefined 3 45 packet (omega arith) (ground arith)) refl)
]

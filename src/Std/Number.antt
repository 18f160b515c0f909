-- ===== src/Std/Number.antt =====
-- Numbers as text: `<<` of an `int`, and `atoi`, without its overflow.
use powerguru.Prelude.{
  ℕ, zero, suc, ◌+◌, ◌*◌, ◌/◌, ◌%◌, ◌^◌, ◌≤◌, ◌<◌, ◌≡◌, refl, sym, ◌∙◌, ap, false, [], ◌∷◌, arith,
  ltb, ◌==◌, if◌then◌else◌, Text, codes, inl, inr, Bool-cases, ltb→lt, lt→ltb,
}
use powerguru.Prelude.Int.{ℤ, pos, negsuc, sub_ℕ}
use powerguru.Std.Strtol.{is_space, accumulate, digit_value, accumulate-digit}

-- The digits of a number before those in `out`; the fuel bounds their count.
unfoldable pub emit : ℕ → ℕ → Text → Text
emit zero n out = out
emit (suc fuel) n out =
    let rest = emit fuel (n / 10) ((b'0' + n % 10) ∷ out) in
    if ltb n 10 then (b'0' + n) ∷ out else rest

-- Twenty digits hold every number of 64 bits.
abbrev pub print_fuel : ℕ
print_fuel = 20

unfoldable pub print_nat : ℕ → Text
print_nat n = emit print_fuel n []

unfoldable pub print_int : ℤ → Text
print_int (pos n) = print_nat n
print_int (negsuc n) = b'-' ∷ print_nat (suc n)

signed_decimal : Text → ℤ
signed_decimal [] = pos 0
signed_decimal (c ∷ s) =
    if c == b'-'
    then sub_ℕ 0 (accumulate 10 0 s)
    else if c == b'+'
    then pos (accumulate 10 0 s)
    else pos (accumulate 10 0 (c ∷ s))

unfoldable pub atoi : Text → ℤ
unfolding signed_decimal
atoi [] = pos 0
atoi (c ∷ s) = let rest = atoi s in if is_space c then rest else signed_decimal (c ∷ s)

minus_seven : atoi (codes " -7x") ≡ negsuc 6
unfolding atoi signed_decimal is_space accumulate digit_value
minus_seven = refl

digit_lem :
    (acc a : ℕ) (s : Text)
    → a < 10
    → accumulate 10 acc ((b'0' + a) ∷ s) ≡ accumulate 10 (acc * 10 + a) s
digit_lem acc a s h = ground (arith, accumulate-digit 10 acc a s h)

below : (fuel n : ℕ) → n < 10 ^ suc fuel → n / 10 < 10 ^ fuel
below fuel n h = omega arith

-- The digits that `emit` puts before `out` are read as the number.
accumulate-emit :
    (fuel n : ℕ) (out : Text)
    → n < 10 ^ fuel
    → accumulate 10 0 (emit fuel n out) ≡ accumulate 10 n out
unfolding emit
accumulate-emit zero n out h =
    let none_left : 0 ≡ n = omega arith in ap (λ m. accumulate 10 m out) none_left
accumulate-emit (suc fuel) n out h = elim (Bool-cases (ltb n 10)) [
  | inl e ↦ rw e (digit_lem 0 n out (ltb→lt n 10 e) ∙ ap (λ m. accumulate 10 m out) (omega arith))
  | inr e ↦ rw e (
      accumulate-emit fuel (n / 10) ((b'0' + n % 10) ∷ out) (below fuel n h)
      ∙ digit_lem (n / 10) (n % 10) out (omega arith)
      ∙ ap (λ m. accumulate 10 m out) (omega arith))
]

-- The print starts with a digit.
pub emit-digit :
    (fuel n : ℕ) (out : Text)
    → (a : ℕ) × (s : Text) × (a < 10) × (emit (suc fuel) n out ≡ (b'0' + a) ∷ s)
unfolding emit
emit-digit zero n out = elim (Bool-cases (ltb n 10)) [
  | inl e ↦ (n, out, ltb→lt n 10 e, rw e refl)
  | inr e ↦ (n % 10, out, omega arith, rw e refl)
]
emit-digit (suc fuel) n out = elim (Bool-cases (ltb n 10)) [
  | inl e ↦ (n, out, ltb→lt n 10 e, rw e refl)
  | inr e ↦
      let (a, s, small, shape) = emit-digit fuel (n / 10) ((b'0' + n % 10) ∷ out) in
      (a, s, small, rw e shape)
]

pub atoi-digit :
    (a : ℕ) (s : Text) → a < 10 → atoi ((b'0' + a) ∷ s) ≡ pos (accumulate 10 0 ((b'0' + a) ∷ s))
unfolding atoi signed_decimal is_space
atoi-digit a s h = ground arith

-- A number of at most twenty digits is read back from its print, whatever follows it that is no digit.
pub atoi-print_nat :
    (n : ℕ) (rest : Text)
    → n < 10 ^ print_fuel
    → atoi (emit print_fuel n rest) ≡ pos (accumulate 10 n rest)
atoi-print_nat n rest h =
    let (a, s, small, shape) = emit-digit 19 n rest in
    ap atoi shape
    ∙ atoi-digit a s small
    ∙ ap (λ t. pos (accumulate 10 0 t)) (sym shape)
    ∙ ap pos (accumulate-emit print_fuel n rest h)

-- Numbers of one digit and of two.
emit-one : (fuel n : ℕ) (out : Text) → n < 10 → emit (suc fuel) n out ≡ (b'0' + n) ∷ out
unfolding emit
emit-one fuel n out h = rw (lt→ltb n 10 h) refl

emit-two :
    (fuel n : ℕ)
    → 10 ≤ n
    → n < 100
    → emit (suc (suc fuel)) n [] ≡ (b'0' + n / 10) ∷ (b'0' + n % 10) ∷ []
unfolding emit
emit-two fuel n low high =
    let large : ltb n 10 ≡ false = ground arith in
    rw large (emit-one fuel (n / 10) ((b'0' + n % 10) ∷ []) (omega arith))

pub print_int-one : (n : ℕ) → n < 10 → print_int (pos n) ≡ (b'0' + n) ∷ []
unfolding print_int print_nat
print_int-one n h = emit-one 19 n [] h

pub print_int-two :
    (n : ℕ) → 10 ≤ n → n < 100 → print_int (pos n) ≡ (b'0' + n / 10) ∷ (b'0' + n % 10) ∷ []
unfolding print_int print_nat
print_int-two n low high = emit-two 18 n low high

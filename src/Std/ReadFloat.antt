-- ===== src/Std/ReadFloat.antt =====
-- `stof` of the print of an `int`.
use powerguru.Prelude.{
  ℕ, zero, suc, ◌+◌, ◌*◌, ◌/◌, ◌%◌, ◌^◌, ◌<◌, ◌≤◌, ◌≡◌, refl, sym, ap, ◌∙◌, Bool, true, false, ◌&&◌,
  [], ◌∷◌, ◌++◌, ltb, leb, ◌==◌, lt→ltb, ltb→lt, Bool-cases, inl, inr, arith, if◌then◌else◌, Text,
}
use powerguru.Prelude.Int.{ℤ, pos, negsuc, sub_ℕ, pos_part, neg_part}
use powerguru.Std.Strtol.{is_space}
use powerguru.Std.Number.{emit, print_fuel, print_nat, print_int, emit-digit}
use powerguru.Std.Convert.{done, read_digits, skip_spaces, stof, unsigned_float, fraction}

read_digits-digit :
    (n count a : ℕ) (s : Text)
    → a < 10
    → read_digits n count ((b'0' + a) ∷ s) ≡ read_digits (n * 10 + a) (count + 1) s
unfolding read_digits
read_digits-digit n count a s h =
    let is_digit : (leb b'0' (b'0' + a) && leb (b'0' + a) b'9') ≡ true = ground arith in
    rw is_digit (ap (λ m. read_digits m (count + 1) s) (omega arith))

below : (fuel n : ℕ) → n < 10 ^ suc (suc fuel) → n / 10 < 10 ^ suc fuel
below fuel n h = omega arith

-- The digits that are put before `out` are read as the number.
read_digits-emit :
    (fuel n : ℕ) (out : Text)
    → n < 10 ^ suc fuel
    → (count : ℕ) × (1 ≤ count)
      × (read_digits 0 0 (emit (suc fuel) n out) ≡ read_digits n count out)
unfolding emit
read_digits-emit zero n out h =
    let small : ltb n 10 ≡ true = lt→ltb n 10 (omega arith) in
    (
      1,
      omega arith,
      rw small
          (read_digits-digit 0 0 n out (omega arith) ∙ ap (λ m. read_digits m 1 out) (omega arith)),
    )
read_digits-emit (suc fuel) n out h = elim (Bool-cases (ltb n 10)) [
  | inl e ↦ (
    1,
    omega arith,
    rw e
        (read_digits-digit 0 0 n out (ltb→lt n 10 e) ∙ ap (λ m. read_digits m 1 out) (omega arith)),
  )
  | inr e ↦
      let (count, some_digit, read) =
        read_digits-emit fuel (n / 10) ((b'0' + n % 10) ∷ out) (below fuel n h) in
      (
        count + 1,
        omega arith,
        rw e (
            read
            ∙ read_digits-digit (n / 10) count (n % 10) out (omega arith)
            ∙ ap (λ m. read_digits m (count + 1) out) (omega arith)),
      )
]

abbrev line_end : Text
line_end = 10 ∷ []

unsigned_float-emit :
    (negative : Bool) (n : ℕ)
    → n < 10 ^ 20
    → unsigned_float negative (emit print_fuel n line_end)
      ≡ done (record { mantissa = if negative then sub_ℕ 0 n else pos n; places = 0 })
unfolding read_digits
unsigned_float-emit negative n h =
    let (count, some_digit, read) = read_digits-emit 19 n line_end h in
    let counted : (count == 0) ≡ false = ground arith in
    ap (λ r. fraction negative r.0 r.1 r.2) read ∙ rw counted refl

emit-append : (fuel n : ℕ) (out rest : Text) → emit fuel n out ++ rest ≡ emit fuel n (out ++ rest)
unfolding emit
emit-append zero n out rest = refl
emit-append (suc fuel) n out rest = elim (Bool-cases (ltb n 10)) [
  | inl e ↦ rw e refl
  | inr e ↦ rw e (emit-append fuel (n / 10) ((b'0' + n % 10) ∷ out) rest)
]

stof-digit :
    (a : ℕ) (s : Text) → a < 10 → stof ((b'0' + a) ∷ s) ≡ unsigned_float false ((b'0' + a) ∷ s)
unfolding stof skip_spaces is_space
stof-digit a s h = ground arith

minus_suc : (k : ℕ) → sub_ℕ 0 (suc k) ≡ negsuc k
minus_suc k = ground arith

-- The number that was printed, where it has at most twenty digits.
pub stof-print_int :
    (n : ℤ)
    → pos_part n + neg_part n < 10 ^ 20
    → stof (print_int n ++ line_end) ≡ done (record { mantissa = n; places = 0 })
unfolding print_int print_nat stof skip_spaces is_space
stof-print_int (pos k) h =
    let (a, s, small, shape) = emit-digit 19 k line_end in
    ap stof (emit-append print_fuel k [] line_end ∙ shape)
    ∙ stof-digit a s small
    ∙ ap (unsigned_float false) (sym shape)
    ∙ unsigned_float-emit false k (omega arith)
stof-print_int (negsuc k) h =
    ap (λ t. unsigned_float true t) (emit-append print_fuel (suc k) [] line_end)
    ∙ unsigned_float-emit true (suc k) (omega arith)
    ∙ ap (λ z. done (record { mantissa = z; places = 0 })) (minus_suc k)

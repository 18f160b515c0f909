-- ===== src/Std/Convert.antt =====
-- `std::stoll`, `std::stof` and the hexadecimal print of the standard library, with what they throw.
use powerguru.Prelude.{
  ℕ, zero, suc, ◌+◌, ◌-◌, ◌*◌, ◌/◌, ◌%◌, ◌≡◌, refl, Bool, true, false, ◌&&◌, ◌||◌, [], ◌∷◌, ltb,
  leb, ◌==◌, if◌then◌else◌, Text, codes, length,
}
use powerguru.Prelude.Int.{ℤ, pos, negsuc, sub_ℕ}
use powerguru.Std.Strtol.{is_space, digit_value, accumulate}

-- The exceptions of the library.
pub data Exception : Type 0 where
  out_of_range invalid_argument : Exception

-- A call ends with a value, with an exception, or follows a null pointer.
pub data Result {ℓ} (A : Type ℓ) : Type ℓ where
  done : A → Result A
  throws : Exception → Result A
  null_pointer : Result A

infixl 5 ◌>>=◌
abbrev pub ◌>>=◌ {ℓ κ} : {A : Type ℓ} {B : Type κ} → Result A → (A → Result B) → Result B
done a >>= f = f a
throws e >>= f = throws e
null_pointer >>= f = null_pointer

unfoldable pub skip_spaces : Text → Text
unfolding is_space
skip_spaces [] = []
skip_spaces (c ∷ s) = let rest = skip_spaces s in if is_space c then rest else c ∷ s

-- The number of a text without white space and sign, in base 16, after a prefix `0x`.
unfoldable pub hex_magnitude : Text → Result ℕ
unfolding digit_value accumulate
hex_magnitude [] = throws invalid_argument
hex_magnitude (c ∷ []) =
    if ltb (digit_value c) 16 then done (digit_value c) else throws invalid_argument
hex_magnitude (c ∷ d ∷ s) =
    let plain =
      if ltb (digit_value c) 16
      then done (accumulate 16 0 (c ∷ d ∷ s))
      else throws invalid_argument in
    if c == b'0' && (d == b'x' || d == b'X') then done (accumulate 16 0 s) else plain

-- What fits 64 bits.
abbrev pub two_63 : ℕ
two_63 = 9223372036854775808

unfoldable pub signed_long : Bool → ℕ → Result ℤ
signed_long negative n =
    if negative
    then (if leb n two_63 then done (sub_ℕ 0 n) else throws out_of_range)
    else (if ltb n two_63 then done (pos n) else throws out_of_range)

abbrev pub signed_hex : Text → Result ℤ
unfolding hex_magnitude signed_long
signed_hex [] = throws invalid_argument
signed_hex (c ∷ s) =
    if c == b'-'
    then hex_magnitude s >>= signed_long true
    else if c == b'+'
    then hex_magnitude s >>= signed_long false
    else hex_magnitude (c ∷ s) >>= signed_long false

-- `std::stoll (s, 0, 16)`.
unfoldable pub stoll_hex : Text → Result ℤ
unfolding skip_spaces signed_hex
stoll_hex s = signed_hex (skip_spaces s)

-- A number with `places` decimal digits: `mantissa / 10 ^ places`.
pub record Decimal : Type 0 where
  pub mantissa : ℤ
  pub places : ℕ

-- The digits in front: their number, read behind `n`, their count, and the rest of the text.
unfoldable pub read_digits : ℕ → ℕ → Text → ℕ × ℕ × Text
read_digits n count [] = (n, count, [])
read_digits n count (c ∷ s) =
    let next = read_digits (n * 10 + (c - b'0')) (count + 1) s in
    if leb b'0' c && leb c b'9' then next else (n, count, c ∷ s)

abbrev signed_mantissa : Bool → ℕ → ℤ
signed_mantissa negative n = if negative then sub_ℕ 0 n else pos n

abbrev pub fraction : Bool → ℕ → ℕ → Text → Result Decimal
unfolding read_digits
fraction negative n count [] =
    if count == 0
    then throws invalid_argument
    else done (record { mantissa = signed_mantissa negative n; places = 0 })
fraction negative n count (c ∷ s) =
    let (m, more, rest) = read_digits n 0 s in
    if c == b'.'
    then (if count + more == 0
        then throws invalid_argument
        else done (record { mantissa = signed_mantissa negative m; places = more }))
    else if count == 0
    then throws invalid_argument
    else done (record { mantissa = signed_mantissa negative n; places = 0 })

abbrev pub unsigned_float : Bool → Text → Result Decimal
unfolding fraction
unsigned_float negative s =
    let (n, count, rest) = read_digits 0 0 s in fraction negative n count rest

abbrev pub signed_float : Text → Result Decimal
unfolding unsigned_float
signed_float [] = throws invalid_argument
signed_float (c ∷ s) =
    if c == b'-'
    then unsigned_float true s
    else if c == b'+'
    then unsigned_float false s
    else unsigned_float false (c ∷ s)

-- `std::stof`, without exponents, hexadecimal floats, infinities, and the rounding to `float`.
unfoldable pub stof : Text → Result Decimal
unfolding skip_spaces signed_float
stof s = signed_float (skip_spaces s)

-- `atof`: 0 where no number stands in front.
unfoldable pub atof : Text → Decimal
unfolding stof
atof s = elim (stof s) [
  | done d ↦ d
  | throws _ ↦ record { mantissa = pos 0; places = 0 }
  | null_pointer ↦ record { mantissa = pos 0; places = 0 }
]

-- The digits of `std::hex`, and the digits of a number before those in `out`.
abbrev pub hex_digit : ℕ → ℕ
hex_digit d = if ltb d 10 then b'0' + d else 87 + d

unfoldable pub emit_hex : ℕ → ℕ → Text → Text
emit_hex zero n out = out
emit_hex (suc fuel) n out =
    let rest = emit_hex fuel (n / 16) (hex_digit (n % 16) ∷ out) in
    if ltb n 16 then hex_digit n ∷ out else rest

abbrev pub zeros : ℕ → Text → Text
zeros zero out = out
zeros (suc n) out = b'0' ∷ zeros n out

-- `std::hex << std::setw (width) << std::setfill ('0')` of a number of 64 bits.
unfoldable pub print_hex : ℕ → ℕ → Text
unfolding emit_hex
print_hex width n = let s = emit_hex 16 n [] in zeros (width - length s) s

numbers :
    (stoll_hex (codes " -0x1fg") ≡ done (negsuc 30))
    × (stoll_hex (codes "x") ≡ throws invalid_argument)
    × (stof (codes " -23.125\n") ≡ done (record { mantissa = negsuc 23124; places = 3 }))
    × (print_hex 6 48879 ≡ codes "00beef")
unfolding stoll_hex stof print_hex digit_value accumulate is_space skip_spaces hex_magnitude
    signed_long read_digits
numbers = (refl, refl, refl, refl)

-- ===== src/Onewire/Ids.antt =====
-- The id of a temperature sensor: the bytes of the id that the kernel shows, in the other order.
use powerguru.Prelude.{
  ℕ, zero, suc, ◌+◌, ◌-◌, ◌*◌, ◌/◌, ◌%◌, ◌^◌, ◌<◌, ◌≤◌, ◌≡◌, refl, sym, ap, ◌∙◌, true, false, ◌&&◌,
  ◌||◌, List, [], ◌∷◌, map, ltb, leb, ◌==◌, lt→ltb, ltb→lt, Bool-cases, inl, inr, arith, Text,
  length, All,
}
use powerguru.Prelude.Int.{pos}
use powerguru.Std.Strtol.{is_space, digit_value, accumulate}
use powerguru.Std.Convert.{
  done, ◌>>=◌, stoll_hex, skip_spaces, hex_magnitude, signed_long, hex_digit, emit_hex, zeros,
  print_hex, two_63,
}
use powerguru.Onewire.Reading.{
  sensor_id, shift_16, bytes_of, from_bytes, endian_reverse, to_upper, two_64,
}

-- The bytes of an id as two hexadecimal digits each.
abbrev pub hex_text : List ℕ → Text
hex_text [] = []
hex_text (byte ∷ bytes) = hex_digit (byte / 16) ∷ hex_digit (byte % 16) ∷ hex_text bytes

-- Reading: the digits of a byte.
digit_value-hex_digit : (d : ℕ) → d < 16 → digit_value (hex_digit d) ≡ d
unfolding digit_value
digit_value-hex_digit d h = ground arith

accumulate-hex_digit :
    (acc d : ℕ) (s : Text)
    → d < 16
    → accumulate 16 acc (hex_digit d ∷ s) ≡ accumulate 16 (acc * 16 + d) s
unfolding accumulate
accumulate-hex_digit acc d s h = rw (digit_value-hex_digit d h, lt→ltb d 16 h) refl

accumulate-byte :
    (acc byte : ℕ) (s : Text)
    → byte < 256
    → accumulate 16 acc (hex_digit (byte / 16) ∷ hex_digit (byte % 16) ∷ s)
      ≡ accumulate 16 (acc * 256 + byte) s
accumulate-byte acc byte s h =
    accumulate-hex_digit acc (byte / 16) (hex_digit (byte % 16) ∷ s) (omega arith)
    ∙ accumulate-hex_digit (acc * 16 + byte / 16) (byte % 16) s (omega arith)
    ∙ ap (λ n. accumulate 16 n s) (omega arith)

accumulate-hex_text :
    (acc : ℕ) (bytes : List ℕ)
    → All (λ byte. byte < 256) bytes
    → accumulate 16 acc (hex_text bytes) ≡ from_bytes acc bytes
unfolding accumulate from_bytes
accumulate-hex_text acc [] h = refl
accumulate-hex_text acc (byte ∷ bytes) h =
    accumulate-byte acc byte (hex_text bytes) h.0 ∙ accumulate-hex_text (acc * 256 + byte) bytes h.1

-- Reversing: the bytes of a number in which a byte stands lowest.
bytes_of-byte :
    (count n byte : ℕ)
    → byte < 256
    → bytes_of (suc count) (n * 256 + byte) ≡ byte ∷ bytes_of count n
unfolding bytes_of
bytes_of-byte count n byte h =
    ap (λ b. b ∷ bytes_of count ((n * 256 + byte) / 256)) (omega arith)
    ∙ ap (λ m. byte ∷ bytes_of count m) (omega arith)

-- Printing: `width` digits of a number before those in `out`.
digits_of : ℕ → ℕ → Text → Text
digits_of zero n out = out
digits_of (suc width) n out = digits_of width (n / 16) (hex_digit (n % 16) ∷ out)

zeros-zero : (width : ℕ) (out : Text) → zeros width (b'0' ∷ out) ≡ b'0' ∷ zeros width out
zeros-zero zero out = refl
zeros-zero (suc width) out = ap (λ s. b'0' ∷ s) (zeros-zero width out)

digits_of-zero : (width : ℕ) (out : Text) → digits_of width 0 out ≡ zeros width out
unfolding digits_of
digits_of-zero zero out = refl
digits_of-zero (suc width) out = digits_of-zero width (b'0' ∷ out) ∙ zeros-zero width out

zeros-emit_hex :
    (width fuel n : ℕ) (out : Text)
    → n < 16 ^ suc width
    → width ≤ fuel
    → zeros
        (suc width + length out - length (emit_hex (suc fuel) n out))
        (emit_hex (suc fuel) n out)
      ≡ digits_of (suc width) n out
unfolding emit_hex digits_of
zeros-emit_hex zero fuel n out h f =
    let small : ltb n 16 ≡ true = lt→ltb n 16 (omega arith) in
    let none_left : suc zero + length out - length (hex_digit n ∷ out) ≡ 0 = omega arith in
    let last : n ≡ n % 16 = omega arith in
    rw small (ap (λ k. zeros k (hex_digit n ∷ out)) none_left ∙ ap (λ d. hex_digit d ∷ out) last)
zeros-emit_hex (suc width) zero n out h f = absurd (omega arith)
zeros-emit_hex (suc width) (suc fuel) n out h f = elim (Bool-cases (ltb n 16)) [
  | inl e ↦
      let small : n < 16 = ltb→lt n 16 e in
      let left : suc (suc width) + length out - length (hex_digit n ∷ out) ≡ suc width =
        omega arith in
      let last : n ≡ n % 16 = omega arith in
      let above : 0 ≡ n / 16 = omega arith in
      rw e (
        ap (λ k. zeros k (hex_digit n ∷ out)) left
        ∙ sym (digits_of-zero (suc width) (hex_digit n ∷ out))
        ∙ ap (λ d. digits_of (suc width) 0 (hex_digit d ∷ out)) last
        ∙ ap (λ m. digits_of (suc width) m (hex_digit (n % 16) ∷ out)) above)
  | inr e ↦
      let small : n / 16 < 16 ^ suc width = omega arith in
      let room : suc (suc width) + length out ≡ suc width + length (hex_digit (n % 16) ∷ out) =
        omega arith in
      let rest = emit_hex (suc fuel) (n / 16) (hex_digit (n % 16) ∷ out) in
      rw e (
        ap (λ k. zeros (k - length rest) rest) room
        ∙ zeros-emit_hex width fuel (n / 16) (hex_digit (n % 16) ∷ out) small (omega arith))
]

digits_of-byte :
    (width n byte : ℕ) (out : Text)
    → byte < 256
    → digits_of (suc (suc width)) (n * 256 + byte) out
      ≡ digits_of width n (hex_digit (byte / 16) ∷ hex_digit (byte % 16) ∷ out)
unfolding digits_of
digits_of-byte width n byte out h =
    ap
      (λ d.
        digits_of width ((n * 256 + byte) / 16 / 16)
          (hex_digit ((n * 256 + byte) / 16 % 16) ∷ hex_digit d ∷ out))
      (omega arith)
    ∙ ap
        (λ d.
          digits_of width ((n * 256 + byte) / 16 / 16) (hex_digit d ∷ hex_digit (byte % 16) ∷ out))
        (omega arith)
    ∙ ap (λ m. digits_of width m (hex_digit (byte / 16) ∷ hex_digit (byte % 16) ∷ out))
        (omega arith)

-- The digits are no white space, no sign and no prefix.
stoll_hex-digits :
    (a b : ℕ) (s : Text)
    → a < 16
    → b < 16
    → stoll_hex (hex_digit a ∷ hex_digit b ∷ s)
      ≡ signed_long false (accumulate 16 0 (hex_digit a ∷ hex_digit b ∷ s))
unfolding stoll_hex skip_spaces is_space hex_magnitude
stoll_hex-digits a b s h k =
    let no_space : (hex_digit a == 32 || (leb 9 (hex_digit a) && leb (hex_digit a) 13)) ≡ false =
      ground arith in
    let no_minus : (hex_digit a == b'-') ≡ false = ground arith in
    let no_plus : (hex_digit a == b'+') ≡ false = ground arith in
    let no_prefix : (hex_digit a == b'0' && (hex_digit b == b'x' || hex_digit b == b'X')) ≡ false =
      ground arith in
    let is_digit : ltb (digit_value (hex_digit a)) 16 ≡ true =
      ap (λ d. ltb d 16) (digit_value-hex_digit a h) ∙ lt→ltb a 16 h in
    rw (no_space, no_minus, no_plus, no_prefix, is_digit) refl

-- The number of six bytes, the highest first.
abbrev number_of : ℕ → ℕ → ℕ → ℕ → ℕ → ℕ → ℕ
number_of a b c d e f = ((((a * 256 + b) * 256 + c) * 256 + d) * 256 + e) * 256 + f

module _ (a b c d e f : ℕ) (ha : a < 256) (hb : b < 256) (hc : c < 256) (hd : d < 256)
    (he : e < 256) (hf : f < 256) where
  stoll_hex-hex_text :
      stoll_hex (hex_text (a ∷ b ∷ c ∷ d ∷ e ∷ f ∷ [])) ≡ done (pos (number_of a b c d e f))
  unfolding signed_long from_bytes
  stoll_hex-hex_text =
      let number : from_bytes 0 (a ∷ b ∷ c ∷ d ∷ e ∷ f ∷ []) ≡ number_of a b c d e f =
        omega arith in
      let fits : ltb (number_of a b c d e f) two_63 ≡ true = lt→ltb _ _ (omega arith) in
      stoll_hex-digits (a / 16) (a % 16) _ (omega arith) (omega arith)
      ∙ ap (signed_long false) (
          accumulate-hex_text 0 (a ∷ b ∷ c ∷ d ∷ e ∷ f ∷ []) (ha, (hb, (hc, (hd, (he, (hf, tt))))))
          ∙ number)
      ∙ rw fits refl

  reverse-number_of :
      endian_reverse (shift_16 (pos (number_of a b c d e f))) ≡ number_of f e d c b a
  unfolding endian_reverse shift_16 bytes_of from_bytes
  reverse-number_of =
      let shifted : number_of a b c d e f * 65536 % two_64
          ≡ (number_of (0 * 256 + a) b c d e f * 256 + 0) * 256 + 0 =
        omega arith in
      ap endian_reverse shifted
      ∙ ap (from_bytes 0) (
          bytes_of-byte 7 _ 0 (omega arith)
          ∙ ap (λ s. 0 ∷ s)
              (bytes_of-byte 6 _ 0 (omega arith)
                ∙ ap (λ s. 0 ∷ s)
                    (bytes_of-byte 5 _ f hf
                      ∙ ap (λ s. f ∷ s)
                          (bytes_of-byte 4 _ e he
                            ∙ ap (λ s. e ∷ s)
                                (bytes_of-byte 3 _ d hd
                                  ∙ ap (λ s. d ∷ s)
                                      (bytes_of-byte 2 _ c hc
                                        ∙ ap (λ s. c ∷ s)
                                            (bytes_of-byte 1 _ b hb
                                              ∙ ap (λ s. b ∷ s) (bytes_of-byte 0 0 a ha))))))))
      ∙ omega arith

  print_hex-number_of : print_hex 12 (number_of a b c d e f) ≡ hex_text (a ∷ b ∷ c ∷ d ∷ e ∷ f ∷ [])
  unfolding print_hex digits_of
  print_hex-number_of =
      let top : number_of a b c d e f ≡ number_of (0 * 256 + a) b c d e f = omega arith in
      zeros-emit_hex 11 15 (number_of a b c d e f) [] (omega arith) (omega arith)
      ∙ ap (λ n. digits_of 12 n []) top
      ∙ digits_of-byte 10 _ f [] hf
      ∙ digits_of-byte 8 _ e _ he
      ∙ digits_of-byte 6 _ d _ hd
      ∙ digits_of-byte 4 _ c _ hc
      ∙ digits_of-byte 2 _ b _ hb
      ∙ digits_of-byte 0 0 a _ ha

-- The id that is stored for the six bytes of an id of the kernel is their print in the other order, in
-- capital letters and with all its zeros.
pub sensor_id-hex_text :
    (a b c d e f : ℕ)
    → a < 256
    → b < 256
    → c < 256
    → d < 256
    → e < 256
    → f < 256
    → sensor_id (hex_text (a ∷ b ∷ c ∷ d ∷ e ∷ f ∷ []))
      ≡ done (map to_upper (hex_text (f ∷ e ∷ d ∷ c ∷ b ∷ a ∷ [])))
unfolding sensor_id
sensor_id-hex_text a b c d e f ha hb hc hd he hf =
    ap (λ r. r >>= λ idnum. done (map to_upper (print_hex 12 (endian_reverse (shift_16 idnum)))))
      (stoll_hex-hex_text a b c d e f ha hb hc hd he hf)
    ∙ ap (λ n. done (map to_upper (print_hex 12 n)))
        (reverse-number_of a b c d e f ha hb hc hd he hf)
    ∙ ap (λ s. done (map to_upper s)) (print_hex-number_of f e d c b a hf he hd hc hb ha)

-- ===== src/Std/Strtol.antt =====
-- `strtol (s, NULL, 0)` of the C library: white space, a sign, a prefix that picks the base, and
-- the longest run of digits.
use powerguru.Prelude.{
  ℕ, ◌+◌, ◌-◌, ◌*◌, ◌<◌, ◌≡◌, refl, Bool, ◌&&◌, ◌||◌, [], ◌∷◌, arith, ltb, leb, ◌==◌, if◌then◌else◌,
  Text, codes,
}
use powerguru.Prelude.Int.{ℤ, pos, negsuc, sub_ℕ}

unfoldable pub is_space : ℕ → Bool
is_space c = c == 32 || (leb 9 c && leb c 13)

-- The value of a digit of any base up to 36; 36 for what is no digit.
unfoldable pub digit_value : ℕ → ℕ
digit_value c =
    if leb b'0' c && leb c b'9'
    then c - b'0'
    else if leb b'a' c && leb c b'z'
    then c - 87
    else if leb b'A' c && leb c b'Z'
    then c - 55
    else 36

-- Digits are read from the left as long as they belong to the base.
unfoldable pub accumulate : ℕ → ℕ → Text → ℕ
accumulate base acc [] = acc
accumulate base acc (c ∷ s) =
    if ltb (digit_value c) base then accumulate base (acc * base + digit_value c) s else acc

abbrev is_x : ℕ → Bool
is_x c = c == b'x' || c == b'X'

-- Base 0: a leading `0x` before a hexadecimal digit means 16, a leading `0` means 8, else 10.
unfoldable pub magnitude : Text → ℕ
magnitude [] = 0
magnitude (c ∷ []) = accumulate 10 0 (c ∷ [])
magnitude (c ∷ d ∷ []) = if c == b'0' then accumulate 8 0 (d ∷ []) else accumulate 10 0 (c ∷ d ∷ [])
magnitude (c ∷ d ∷ e ∷ s) =
    if c == b'0'
    then (if is_x d && ltb (digit_value e) 16
        then accumulate 16 0 (e ∷ s)
        else accumulate 8 0 (d ∷ e ∷ s))
    else accumulate 10 0 (c ∷ d ∷ e ∷ s)

unfoldable pub signed : Text → ℤ
signed [] = pos 0
signed (c ∷ s) =
    if c == b'-'
    then sub_ℕ 0 (magnitude s)
    else if c == b'+'
    then pos (magnitude s)
    else pos (magnitude (c ∷ s))

unfoldable pub strtol : Text → ℤ
strtol [] = pos 0
strtol (c ∷ s) = if is_space c then strtol s else signed (c ∷ s)

-- A text that starts with a digit has no white space and no sign.
pub strtol-digit :
    (a : ℕ) (s : Text) → a < 10 → strtol ((b'0' + a) ∷ s) ≡ pos (magnitude ((b'0' + a) ∷ s))
unfolding strtol signed is_space
strtol-digit a s h = ground arith

pub digit_value-digit : (a : ℕ) → a < 10 → digit_value (b'0' + a) ≡ a
unfolding digit_value
digit_value-digit a h = ground arith

-- One round of the loop over the digits.
pub accumulate-digit :
    (base acc a : ℕ) (s : Text)
    → a < 10
    → accumulate base acc ((b'0' + a) ∷ s)
      ≡ (if ltb a base then accumulate base (acc * base + a) s else acc)
unfolding accumulate
accumulate-digit base acc a s h = rw (digit_value-digit a h)

spaces_and_octal : strtol (codes " 08") ≡ pos 0
unfolding strtol signed magnitude accumulate digit_value is_space
spaces_and_octal = refl

minus_twelve : strtol (codes "-12") ≡ negsuc 11
unfolding strtol signed magnitude accumulate digit_value is_space
minus_twelve = refl

hexadecimal : strtol (codes "0x1fg") ≡ pos 31
unfolding strtol signed magnitude accumulate digit_value is_space
hexadecimal = refl

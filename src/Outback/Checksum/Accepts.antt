-- ===== src/Outback/Checksum/Accepts.antt =====
-- Which pages `outback::calcChecksum` accepts.
use powerguru.Prelude.{ℕ, ◌+◌, ◌-◌, ◌*◌, ◌≤◌, ◌≡◌, ◌≢◌, [], ◌∷◌, arith, ◌⊎◌}
use powerguru.Prelude.Int.{pos}
use powerguru.Std.Strtol.{strtol, signed, magnitude, accumulate, digit_value, is_space}

abbrev pub IsDigit : ℕ → Type 0
IsDigit c = (b'0' ≤ c) × (c ≤ b'9')

-- The number that three decimal digits spell.
abbrev pub decimal : ℕ → ℕ → ℕ → ℕ
decimal a b c = 100 * (a - b'0') + 10 * (b - b'0') + (c - b'0')

-- Behind a digit that is not `'0'` no `'0'` follows.
abbrev pub ZerosLead : ℕ → ℕ → ℕ → Type 0
ZerosLead a b c = (a ≡ b'0' ⊎ (b ≢ b'0')) × ((a ≡ b'0') × (b ≡ b'0') ⊎ (c ≢ b'0'))

digits2 :
    (a b : ℕ)
    → IsDigit a
    → IsDigit b
    → a ≢ b'0'
    → strtol (a ∷ b ∷ []) ≡ pos (10 * (a - b'0') + (b - b'0'))
unfolding strtol signed magnitude accumulate digit_value is_space
digits2 a b h k n = ground arith

digits3 :
    (a b c : ℕ)
    → IsDigit a
    → IsDigit b
    → IsDigit c
    → a ≢ b'0'
    → strtol (a ∷ b ∷ c ∷ []) ≡ pos (decimal a b c)
unfolding strtol signed magnitude accumulate digit_value is_space
digits3 a b c h k l n = ground arith

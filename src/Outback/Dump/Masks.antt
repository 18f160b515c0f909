-- ===== src/Outback/Dump/Masks.antt =====
-- What `outback::dump` says of the error and warning masks, and of readings in tenths.
use powerguru.Prelude.{ℕ, ◌≡◌, ◌⊎◌, codes, arith}
use powerguru.Prelude.Int.{pos}
use powerguru.Outback.Modes.{switch, error_mode_text, warning_mode_text}

-- No bit, or one of the eight bits alone.
abbrev pub IsOneBit : ℕ → Type 0
IsOneBit m = m ≡ 0 ⊎ m ≡ 1 ⊎ m ≡ 2 ⊎ m ≡ 4 ⊎ m ≡ 8 ⊎ m ≡ 16 ⊎ m ≡ 32 ⊎ m ≡ 64 ⊎ m ≡ 128

-- Where more than one bit of a mask is set, none of the errors and none of the warnings is named: the
-- texts say that there is no mode.
pub mode_texts-masks :
    (m : ℕ)
    → ¬ (IsOneBit m)
    → (error_mode_text (pos m) ≡ codes "No error mode")
      × (warning_mode_text (pos m) ≡ codes "No warning mode")
unfolding error_mode_text warning_mode_text switch
mode_texts-masks m h = (ground arith, ground arith)

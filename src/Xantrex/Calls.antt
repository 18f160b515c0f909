-- ===== src/Xantrex/Calls.antt =====
-- The table that `XantrexUI::SetDefaultValues` fills: the arguments of its calls of `SetItem`, heading
-- by heading. A string literal as fourth argument is a pointer: it converts to `bool` by a standard
-- conversion, so the overload for `bool` is called, with `true` and no abbreviation.
use powerguru.Prelude.{ℕ, Bool, Text}
use powerguru.Prelude.Int.{ℤ}

-- The overloads that the table uses: (lab, x), (lab, x, y), and those for `bool`, `int` and `float`,
-- whose abbreviation is empty if there is none.
pub data Call : Type 0 where
  head : Text → ℕ → Call
  information : Text → ℕ → ℕ → Call
  flag : Text → ℕ → ℕ → Bool → Text → Call
  whole : Text → ℕ → ℕ → ℤ → Text → Call
  decimal : Text → ℕ → ℕ → ℤ → Text → Call

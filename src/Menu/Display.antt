-- ===== src/Menu/Display.antt =====
-- `MenuItem::SetDisplay`: the lines of the LCD display.
use powerguru.Prelude.{ℕ, zero, suc, ◌-◌, Bool, [], ◌∷◌, ◌++◌, Text, codes, length, if◌then◌else◌}
use powerguru.Prelude.Int.{ℤ}
use powerguru.Std.Number.{print_int}
use powerguru.Menu.Item.{MenuItem}

unfoldable pub repeat : ℕ → ℕ → Text
repeat zero c = []
repeat (suc n) c = c ∷ repeat n c

-- `oss.fill (c); oss.width (n); oss << s`: a width that is not more than the length, or negative,
-- pads nothing.
unfoldable pub pad : ℕ → ℕ → Text → Text
unfolding repeat
pad n c s = repeat (n - length s) c ++ s

abbrev pub prefix : Text
prefix = codes "\r\n  "

abbrev pub headidx_column : ℕ
headidx_column = 33

abbrev pub intidx : ℕ
intidx = 36

abbrev pub boolidx : ℕ
boolidx = 37

abbrev pub fltidx : ℕ
fltidx = 38

abbrev pub timeidx : ℕ
timeidx = 16

-- `SetDisplay (label)`: the width is set, but nothing is written behind it.
unfoldable pub set_display : MenuItem → Text → MenuItem
set_display item label = record item { display = prefix ++ label }

-- `SetDisplay (label, int)`.
unfoldable pub set_display_int : MenuItem → Text → ℤ → MenuItem
unfolding pad
set_display_int item label x = record item {
  display =
      prefix ++ label ++ pad (intidx - length label - 1) 32 (32 ∷ []) ++ pad 2 b'0' (print_int x);
}

-- `SetDisplay (label, bool)`.
unfoldable pub set_display_bool : MenuItem → Text → Bool → MenuItem
unfolding pad
set_display_bool item label x = record item {
  display =
      prefix ++ label ++ pad (boolidx - length label) 32 (if x then codes "YES" else codes "NO");
}

-- `SetDisplay (label, float)` and `SetDisplay (label, time_t)`, with what `<<` prints.
unfoldable pub set_display_float : MenuItem → Text → Text → MenuItem
unfolding pad
set_display_float item label printed = record item {
  display = prefix ++ label ++ pad (fltidx - length label) 32 printed;
}

unfoldable pub set_display_time : MenuItem → Text → Text → MenuItem
unfolding pad
set_display_time item label printed = record item {
  display = prefix ++ label ++ pad (timeidx - length label) 32 printed;
}

-- ===== src/Menu/Examples.antt =====
-- Lines of the LCD display.
use powerguru.Prelude.{◌+◌, ◌≡◌, true, length, codes, arith}
use powerguru.Prelude.Int.{pos}
use powerguru.Menu.Item.{MenuItem, intval, new}
use powerguru.Menu.Display.{prefix, set_display_int, set_display_bool}
use powerguru.Menu.Columns.{set_display-columns}

abbrev item : MenuItem
item = new (intval (pos 0))

set_display-columns_example :
    (length (set_display_int item (codes "Hertz") (pos 60)).display ≡ length prefix + 37)
    × (length (set_display_bool item (codes "Hertz") true).display ≡ length prefix + 37)
set_display-columns_example =
    set_display-columns item (codes "Hertz") 60 true (omega arith) (omega arith)

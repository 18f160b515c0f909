-- ===== src/Xantrex/Examples.antt =====
-- Runs of the Xantrex code on the default table and on concrete displays.
use powerguru.Prelude.{
  ℕ, ◌+◌, ◌-◌, ◌*◌, ◌≤◌, ◌≡◌, refl, true, List, [], ◌∷◌, ◌++◌, some, Text, codes, length, arith,
}
use powerguru.Prelude.Int.{pos}
use powerguru.Std.Run.{done, undefined}
use powerguru.Serial.{Round, other, bytes}
use powerguru.Menu.Item.{MenuItem, intval, new}
use powerguru.Menu.Display.{set_display_int, repeat}
use powerguru.Xantrex.Calls.{whole}
use powerguru.Xantrex.Table.{set_item, set_default_values, get_item}
use powerguru.Xantrex.Lookup.{get_item-value}
use powerguru.Xantrex.Values.{get_int_value, get_values}
use powerguru.Xantrex.Values.ReadBack.{is_plain, get_int_value-set_display_int}
use powerguru.Xantrex.Values.Words.{get_values_lem}
use powerguru.Xantrex.Panel.{Panel, goto_menu_item}
use powerguru.Xantrex.Meters.{poll_meters}
use powerguru.Xantrex.Meters.Walk.{InOrder}
use powerguru.Xantrex.Meters.Unread.{Unread, NoLoad}
use powerguru.Xantrex.Meters.Poll.{down_record, up_record, poll_meters-once}
use powerguru.Xantrex.Meters.Again.{poll_meters-again}
use powerguru.Xantrex.Panel.Goto.{has_item, headings_found, items_found, goto_menu_item_lem}

abbrev mi : MenuItem
mi = new (intval (pos 0))

abbrev load_amps_label : Text
load_amps_label = codes "Load             amps AC"

-- The third item of the meters.
get_item-value_example :
    get_item (set_default_values mi) 4 3
    ≡ some (set_item (whole load_amps_label 4 3 (pos 0) (codes "LoadAmps")) mi)
get_item-value_example =
    get_item-value mi 25 (whole load_amps_label 4 3 (pos 0) (codes "LoadAmps")) refl refl
      λ e. ground arith

get_int_value-set_display_int_example :
    get_int_value (set_display_int mi load_amps_label (pos 7)).display ≡ pos 7
get_int_value-set_display_int_example =
    get_int_value-set_display_int mi load_amps_label 7 (omega arith) (unfold is_plain in refl)

get_values_example :
    (get_values (codes "Read Hertz 60") ≡ (codes "60" ∷ [], []))
    × (get_values (codes "60") ≡ ([], []))
get_values_example =
    get_values_lem (codes "Read Hertz") (codes "60")
      ((λ e. ground arith), ((λ e. ground arith), tt))

-- Each read is answered at once.
abbrev port : ℕ → ℕ → Round
port reads i = record { wait = other; input = bytes (codes "  Inverter Mode") }

abbrev panel : Panel
panel = record {
  items = set_default_values mi;
  menuheading = 0;
  menuitem = 0;
  menudisp = [];
  is_open = true;
  sent = [];
  reads = 0;
}

default_headings : headings_found panel.items 1 3 ≡ true
unfolding headings_found get_item set_default_values new
default_headings = refl

default_meters : items_found panel.items 4 0 2 ≡ true
unfolding items_found get_item set_default_values new
default_meters = refl

default_load_amps : has_item panel.items 4 3 ≡ true
unfolding get_item set_default_values new
default_load_amps = refl

goto_menu_item_example :
    (ui' : Panel) × (k : ℕ) × (m : ℕ) × (goto_menu_item port 4 3 panel ≡ done ui')
    × (k ≤ 22)
    × (3 - 1 ≤ m)
    × (m ≤ 5 * (3 - 1))
    × (ui'.sent ≡ [] ++ repeat k b'L' ++ repeat 3 b'R' ++ repeat m b'D')
    × (ui'.reads ≡ 0 + k + 3 + m)
    × (ui'.menuheading ≡ 4)
    × (ui'.menuitem ≡ 3)
    × (ui'.items ≡ panel.items)
    × (ui'.is_open ≡ true)
goto_menu_item_example =
    goto_menu_item_lem port 4 3 panel refl default_headings default_meters default_load_amps
      (omega arith)

-- The display of each item shows a number behind the label.
abbrev meter_port : ℕ → ℕ → Round
meter_port reads i = record { wait = other; input = bytes (codes "amps AC 07 ") }

poll_meters-once_example :
    (ui' : Panel) × (ns : List ℕ) × (ns' : List ℕ) × (r : ℕ) × (poll_meters meter_port 1 panel
      ≡ done (down_record meter_port ns ∷ up_record meter_port ns ns' ∷ [], ui'))
    × (length ns ≡ 8)
    × (length ns' ≡ 7)
    × InOrder 0 ns r
    × InOrder r ns' ui'.reads
    × Unread (down_record meter_port ns)
    × Unread (up_record meter_port ns ns')
    × NoLoad (up_record meter_port ns ns')
poll_meters-once_example = poll_meters-once meter_port mi panel refl refl

poll_meters-again_example : poll_meters meter_port 2 panel ≡ undefined
poll_meters-again_example = poll_meters-again meter_port mi 2 panel refl refl (omega arith)

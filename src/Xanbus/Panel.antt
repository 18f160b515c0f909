-- ===== src/Xanbus/Panel.antt =====
-- devices/xanbus.cc: the methods of `XanbusUI` from its constructor on. They are those of `XantrexUI`,
-- statement by statement, so each is the function of Xantrex.
use powerguru.Prelude.{ℕ, Bool, List, Option, Text}
use powerguru.Prelude.Int.{ℤ}
use powerguru.Std.Run.{Run}
use powerguru.Std.Convert.{Decimal}
use powerguru.Serial.{Round}
use powerguru.Database.{MeterData}
use powerguru.Menu.Item.{MenuItem}
use powerguru.Xantrex.Panel
use powerguru.Xantrex.Panel.{Panel}
use powerguru.Xantrex.Table
use powerguru.Xantrex.Values
use powerguru.Xantrex.Meters
use powerguru.Xantrex.Print

abbrev pub new : MenuItem → ℕ → ℕ → Panel
new = Panel.new

abbrev pub current_label : Panel → Run Text
current_label = Panel.current_label

abbrev pub refresh : (ℕ → ℕ → Round) → Panel → Panel
refresh = Panel.refresh

abbrev pub write_serial : (ℕ → ℕ → Round) → Text → ℕ → Panel → Panel
write_serial = Panel.write_serial

abbrev pub simple_button : (ℕ → ℕ → Round) → ℕ → Panel → Panel
simple_button = Panel.simple_button

abbrev pub setup_menu : (ℕ → ℕ → Round) → Panel → Panel
setup_menu = Panel.setup_menu

abbrev pub menu_heading_minus : (ℕ → ℕ → Round) → Panel → Run Panel
menu_heading_minus = Panel.menu_heading_minus

abbrev pub menu_heading_plus : (ℕ → ℕ → Round) → Panel → Run Panel
menu_heading_plus = Panel.menu_heading_plus

abbrev pub menu_item_minus : (ℕ → ℕ → Round) → Panel → Run Panel
menu_item_minus = Panel.menu_item_minus

abbrev pub menu_item_plus : (ℕ → ℕ → Round) → Panel → Run Panel
menu_item_plus = Panel.menu_item_plus

abbrev pub goto_menu_start : (ℕ → ℕ → Round) → Panel → Panel
goto_menu_start = Panel.goto_menu_start

abbrev pub goto_menu_item : (ℕ → ℕ → Round) → ℕ → ℕ → Panel → Run Panel
goto_menu_item = Panel.goto_menu_item

abbrev pub get_item : List (List MenuItem) → ℕ → ℕ → Option MenuItem
get_item = Table.get_item

abbrev pub match_alias : List (List MenuItem) → Text → Option MenuItem × Text
match_alias = Table.match_alias

abbrev pub get_int_value : Text → ℤ
get_int_value = Values.get_int_value

abbrev pub get_bool_value : Text → Bool
get_bool_value = Values.get_bool_value

abbrev pub get_value : Text → Text
get_value = Values.get_value

abbrev pub get_values : Text → List Text × Text
get_values = Values.get_values

abbrev pub get_label : Text → Text
get_label = Values.get_label

abbrev pub clean_up_data : Text → Text
clean_up_data = Values.clean_up_data

abbrev pub get_float_value : Text → Decimal
get_float_value = Meters.get_float_value

abbrev pub poll_meters : (ℕ → ℕ → Round) → ℕ → Panel → Run (List (MeterData Decimal) × Panel)
poll_meters = Meters.poll_meters

abbrev pub dump : List (List MenuItem) → Text
dump = Print.dump

abbrev pub dump_aliases : Panel → Text × Panel
dump_aliases = Print.dump_aliases

abbrev pub set_default_values : MenuItem → List (List MenuItem)
set_default_values = Table.set_default_values

-- ===== src/Xantrex/Table.antt =====
-- `XantrexUI::SetDefaultValues`, `GetItem` and `Match`.
use powerguru.Prelude.{
  ℕ, ◌==◌, ◌&&◌, List, [], ◌∷◌, Option, none, some, Text, if◌then◌else◌, or_else,
}
use powerguru.Menu.Item.{MenuItem, set_head, set_info, set_bool, set_int, set_float}
use powerguru.Std.Str.{eq_text}
use powerguru.Xantrex.Calls.{Call, head, information, flag, whole, decimal}
use powerguru.Xantrex.User.{
  top_of_menu, inverter_mode, generator_mode, engineering, meters, error_causes, time_of_day,
  generator_timer, end_user_menu,
}
use powerguru.Xantrex.Setup.{
  inverter_setup, battery_charging, ac_inputs, gen_auto_start, gen_starting, auxiliary_relays,
  bulk_charge, low_battery_transfer, battery_selling, grid_usage_timer, information_battery,
  end_setup_menu,
}

-- One call on `mi`.
unfoldable pub set_item : Call → MenuItem → MenuItem
unfolding set_head set_info set_bool set_int set_float
set_item (head lab x) mi = set_head mi lab x
set_item (information lab x y) mi = set_info mi lab x y
set_item (flag lab x y z abbreviation) mi = set_bool mi lab x y z abbreviation
set_item (whole lab x y z abbreviation) mi = set_int mi lab x y z abbreviation
set_item (decimal lab x y z abbreviation) mi = set_float mi lab x y z abbreviation

-- The calls on `mi` one after the other, and `mi` behind them.
unfoldable pub push_calls : MenuItem → List Call → List MenuItem × MenuItem
unfolding set_item
push_calls mi [] = ([], mi)
push_calls mi (c ∷ calls) =
    let (row, last) = push_calls (set_item c mi) calls in (set_item c mi ∷ row, last)

unfoldable pub push_rows : MenuItem → List (List Call) → List (List MenuItem)
unfolding push_calls
push_rows mi [] = []
push_rows mi (calls ∷ rows) = let (row, last) = push_calls mi calls in row ∷ push_rows last rows

abbrev pub default_calls : List (List Call)
default_calls =
    top_of_menu ∷ inverter_mode ∷ generator_mode ∷ engineering ∷ meters ∷ error_causes ∷ time_of_day
    ∷ generator_timer ∷ end_user_menu ∷ inverter_setup ∷ battery_charging ∷ ac_inputs
    ∷ gen_auto_start ∷ gen_starting ∷ auxiliary_relays ∷ bulk_charge ∷ low_battery_transfer
    ∷ battery_selling ∷ grid_usage_timer ∷ information_battery ∷ end_setup_menu ∷ []

-- `_items` after `SetDefaultValues`, from the local variable `mi`.
unfoldable pub set_default_values : MenuItem → List (List MenuItem)
unfolding push_rows
set_default_values mi = push_rows mi default_calls

unfoldable pub find_item : List MenuItem → ℕ → ℕ → Option MenuItem
find_item [] x y = none
find_item (it ∷ row) x y =
    let rest = find_item row x y in if it.headidx == x && it.itemidx == y then some it else rest

-- `GetItem (x, y)`; where it finds nothing it reads behind the end of the last row: `none`.
unfoldable pub get_item : List (List MenuItem) → ℕ → ℕ → Option MenuItem
unfolding find_item
get_item [] x y = none
get_item (row ∷ items) x y = or_else (find_item row x y) (get_item items x y)

unfoldable pub find_alias : List MenuItem → Text → Option MenuItem
unfolding eq_text
find_alias [] str = none
find_alias (it ∷ row) str =
    let rest = find_alias row str in if eq_text it.cmdname str then some it else rest

-- `Match (str)`, and `str` behind it: erased where nothing matched, and then the reference that is
-- returned points behind the last row.
unfoldable pub match_alias : List (List MenuItem) → Text → Option MenuItem × Text
unfolding find_alias
match_alias [] str = (none, [])
match_alias (row ∷ items) str =
    let rest = match_alias items str in
    elim (find_alias row str) [ some it ↦ (some it, str) | none ↦ rest ]

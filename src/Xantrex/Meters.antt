-- ===== src/Xantrex/Meters.antt =====
-- `XantrexUI::PollMeters` and `GetFloatValue`: the meters of heading 4 are read on the way down, and
-- again on the way up.
pub mod Items
pub mod Walk
pub mod Unread
pub mod Poll
pub mod Again
use powerguru.Prelude.{
  ℕ, zero, suc, ltb, ◌==◌, Bool, true, false, List, [], ◌∷◌, ◌++◌, Text, codes, if◌then◌else◌,
  length, take, drop,
}
use powerguru.Prelude.Int.{ℤ, pos}
use powerguru.Std.Run.{Run, done, out_of_range, ◌>>=◌}
use powerguru.Std.Str.{eq_text}
use powerguru.Std.Convert.{Decimal, atof}
use powerguru.Serial.{Round}
use powerguru.Database.{MeterData, no_device}
use powerguru.Menu.Item.{MenuItem, Datatype, int, float, info}
use powerguru.Xantrex.Table.{get_item}
use powerguru.Xantrex.Values.{get_value, get_int_value}
use powerguru.Xantrex.Panel.{
  Panel, found_item, current_label, menu_item_minus, menu_item_plus, menu_heading_plus,
  menu_heading_minus, goto_menu_item,
}

-- An `int` as a `float`.
abbrev pub to_float : ℤ → Decimal
to_float v = record { mantissa = v; places = 0 }

-- What `memset` leaves.
abbrev pub no_data : MeterData Decimal
no_data = record {
  unit = pos 0;
  type = no_device;
  charge_amps = pos 0;
  ac_load_amps = pos 0;
  battery_volts = to_float (pos 0);
  ac_volts_out = to_float (pos 0);
  ac1_volts_in = to_float (pos 0);
  ac2_volts_in = to_float (pos 0);
  pv_amps_in = pos 0;
  pv_volts_in = to_float (pos 0);
  buy_amps = to_float (pos 0);
  sell_amps = to_float (pos 0);
  daily_kwh = to_float (pos 0);
  hertz = pos 0;
  tempcomp_volts = to_float (pos 0);
}

unfoldable pub get_float_value : Text → Decimal
unfolding get_value atof
get_float_value str = atof (get_value str)

-- `label.substr (0, n) == text` and `label.substr (8, n) == text`: the second throws where the label
-- has less than eight characters.
unfoldable pub front_is : ℕ → Text → Text → Bool
unfolding eq_text
front_is n label text = eq_text (take n label) text

unfoldable pub middle_is : ℕ → Text → Text → Run Bool
unfolding eq_text
middle_is n label text =
    if ltb (length label) 8 then out_of_range else done (eq_text (take n (drop 8 label)) text)

-- `intval` and `fltval`.
unfoldable pub read_value : Datatype → Text → ℤ × Decimal
read_value int str = (get_int_value str, to_float (pos 0))
read_value float str = (pos 0, get_float_value str)
read_value _ str = (pos 0, to_float (pos 0))

-- The tests on the label that both loops have, from "actual" to "Generator".
unfoldable pub store : Text → ℤ → Decimal → MeterData Decimal → Run (MeterData Decimal)
unfolding front_is middle_is
store label intval fltval d = do
  actual ← middle_is 6 label (codes "actual")
  let d1 = if actual then record d { battery_volts = fltval } else d
  tempcomp ← middle_is 8 label (codes "TempComp")
  let d2 = if tempcomp then record d1 { tempcomp_volts = fltval } else d1
  let d3 =
      if front_is 8 label (codes "Inverter")
      then record d2 { ac_volts_out = to_float intval }
      else d2
  let d4 = if front_is 4 label (codes "Grid") then record d3 { ac1_volts_in = fltval } else d3
  done (if front_is 9 label (codes "Generator") then record d4 { ac2_volts_in = fltval } else d4)

abbrev is_info : Datatype → Bool
is_info info = true
is_info _ = false

-- One reading on the way down, and whether the loop ends there: the label is read anew for each item
-- that does not end it.
unfoldable pub store_down : MenuItem → Text → MeterData Decimal → Run (Bool × MeterData Decimal)
unfolding read_value store front_is
store_down item str d =
    let (intval, fltval) = read_value item.type str in
    let d1 =
      if front_is 4 item.label (codes "Load") then record d { ac_load_amps = intval } else d in
    let stored = store item.label intval fltval d1 >>= λ d2. done (
      false,
      if front_is 9 item.label (codes "Read Freq") then record d2 { hertz = intval } else d2,
    ) in
    if is_info item.type then done (true, d) else stored

unfoldable pub down_step : MeterData Decimal → Panel → Run (Bool × MeterData Decimal)
unfolding store_down
down_step d ui =
    let stored = found_item (get_item ui.items ui.menuheading ui.menuitem) >>= λ item.
    store_down item ui.menudisp d in
    if ltb 1 (length ui.menudisp) then stored else done (false, d)

-- One reading on the way up, after `down`: four characters are compared with the five of "Load ".
unfoldable pub store_up : ℤ → MenuItem → Text → MeterData Decimal → Run (MeterData Decimal)
unfolding read_value store front_is
store_up down_hertz item str d =
    let (intval, fltval) = read_value item.type str in
    let d1 =
      if front_is 4 item.label (codes "Load ") then record d { ac_load_amps = intval } else d in
    store item.label intval fltval d1 >>= λ d2. done (record d2 { hertz = down_hertz })

unfoldable pub up_step : ℤ → MeterData Decimal → Panel → Run (MeterData Decimal)
unfolding store_up
up_step down_hertz d ui =
    let stored = found_item (get_item ui.items ui.menuheading ui.menuitem) >>= λ item.
    store_up down_hertz item ui.menudisp d in
    if ltb 0 (length ui.menudisp) then stored else done d

module _ (port : ℕ → ℕ → Round) where
  unfoldable pub down_loop : ℕ → MeterData Decimal → Panel → Run (MeterData Decimal × Panel)
  down_loop zero d ui = done (d, ui)
  down_loop (suc rounds) d ui = do
    ui1 ← menu_item_minus port ui
    (stop, d1) ← down_step d ui1
    elim stop [ true ↦ done (d1, ui1) | false ↦ down_loop rounds d1 ui1 ]

  unfoldable pub up_loop : ℤ → ℕ → MeterData Decimal → Panel → Run (MeterData Decimal × Panel)
  up_loop down_hertz zero d ui = done (d, ui)
  up_loop down_hertz (suc rounds) d ui = do
    ui1 ← menu_item_plus port ui
    d1 ← up_step down_hertz d ui1
    up_loop down_hertz rounds d1 ui1

  -- `while (loops-- > 0)`, with eight items on the way down and seven on the way up.
  unfoldable pub poll_loop :
      ℕ → List (MeterData Decimal) → Panel → Run (List (MeterData Decimal) × Panel)
  poll_loop zero meters ui = done (meters, ui)
  poll_loop (suc loops) meters ui = do
    (down, ui1) ← down_loop 8 no_data ui
    (up, ui2) ← up_loop down.hertz 7 no_data ui1
    poll_loop loops (meters ++ down ∷ up ∷ []) ui2

  unfoldable pub poll_meters : ℕ → Panel → Run (List (MeterData Decimal) × Panel)
  poll_meters loops ui = do
    ui1 ← goto_menu_item port 4 1 ui
    (meters, ui2) ← poll_loop loops [] ui1
    ui3 ← menu_heading_plus port ui2
    ui4 ← menu_heading_minus port ui3
    done (meters, ui4)

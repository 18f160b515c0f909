-- ===== src/Xantrex/Meters/Items.antt =====
-- The meters that `XantrexUI::PollMeters` passes, and what it stores at each of them.
use powerguru.Prelude.{
  ℕ, ◌+◌, ◌≤◌, ltb, ◌≡◌, ◌≢◌, refl, sym, ap, true, false, some, Text, codes, length, get_elem?,
  arith, if◌then◌else◌, inl, inr, Bool-cases,
}
use powerguru.Prelude.Int.{ℤ, pos}
use powerguru.Std.Run.{done}
use powerguru.Std.Convert.{Decimal}
use powerguru.Database.{MeterData}
use powerguru.Menu.Item.{MenuItem}
use powerguru.Xantrex.Calls.{Call, whole, decimal}
use powerguru.Xantrex.Table.{set_item, default_calls, set_default_values, get_item}
use powerguru.Xantrex.Search.{flatten, call_heading, call_item, has_value}
use powerguru.Xantrex.Lookup.{get_item-value}
use powerguru.Xantrex.Values.{get_int_value}
use powerguru.Xantrex.Panel.{Panel}
use powerguru.Xantrex.Meters.{
  to_float, get_float_value, store_down, store_up, down_step, up_step, read_value, store, front_is,
  middle_is,
}

-- The items 2 to 9 of the heading "Meters".
pub data Meter : Type 0 where
  input load actual tempcomp inverter grid generator frequency : Meter

abbrev pub place : Meter → ℕ
place input = 2
place load = 3
place actual = 4
place tempcomp = 5
place inverter = 6
place grid = 7
place generator = 8
place frequency = 9

abbrev call : Meter → Call
call input = whole (codes "Input            amps AC") 4 2 (pos 0) (codes "InputAmps")
call load = whole (codes "Load             amps AC") 4 3 (pos 0) (codes "LoadAmps")
call actual = decimal (codes "Battery actual   volts DC") 4 4 (pos 251) (codes "BattVolts")
call tempcomp = decimal (codes "Battery TempComp volts DC") 4 5 (pos 251) (codes "TempComp")
call inverter = whole (codes "Inverter         volts AC") 4 6 (pos 0) (codes "InvertVolts")
call grid = whole (codes "Grid (AC1)       volts AC") 4 7 (pos 0) (codes "GridVolts")
call generator = whole (codes "Generator (AC2)  volts AC") 4 8 (pos 0) (codes "GenVolts")
call frequency = whole (codes "Read Frequency   Hertz") 4 9 (pos 0) (codes "ReadHertz")

-- The item of a meter in the default table.
unfoldable pub item_of : MenuItem → Meter → MenuItem
item_of mi m = set_item (call m) mi

call_lem :
    (m : Meter)
    → (get_elem? (flatten default_calls) (22 + place m) ≡ some (call m))
      × (has_value (call m) ≡ true)
      × (call_heading (call m) ≡ 4)
      × (call_item (call m) ≡ place m)
      × (1 ≤ place m)
call_lem input = (refl, refl, refl, refl, omega arith)
call_lem load = (refl, refl, refl, refl, omega arith)
call_lem actual = (refl, refl, refl, refl, omega arith)
call_lem tempcomp = (refl, refl, refl, refl, omega arith)
call_lem inverter = (refl, refl, refl, refl, omega arith)
call_lem grid = (refl, refl, refl, refl, omega arith)
call_lem generator = (refl, refl, refl, refl, omega arith)
call_lem frequency = (refl, refl, refl, refl, omega arith)

pub place-positive : (m : Meter) → 1 ≤ place m
place-positive m = let (_, _, _, _, low) = call_lem m in low

pub get_item-meter :
    (mi : MenuItem) (m : Meter) → get_item (set_default_values mi) 4 (place m) ≡ some (item_of mi m)
unfolding item_of
get_item-meter mi m =
    let (at, valued, heading, item, low) = call_lem m in
    let nonzero : call_item (call m) ≢ 0 = λ e. ground (arith, low, item, e) in
    rw (heading, item) at (get_item-value mi (22 + place m) (call m) at valued nonzero)

-- A display of more than `least` characters is read.
abbrev pub kept {ℓ} : {A : Type ℓ} → ℕ → Text → A → A → A
kept least t new old = if ltb least (length t) then new else old

-- What one display changes on the way down, and on the way up.
unfoldable pub down_note : Meter → Text → MeterData Decimal → MeterData Decimal
down_note input t d = d
down_note load t d = record d { ac_load_amps = kept 1 t (get_int_value t) d.ac_load_amps }
down_note actual t d = record d { battery_volts = kept 1 t (get_float_value t) d.battery_volts }
down_note tempcomp t d = record d { tempcomp_volts = kept 1 t (get_float_value t) d.tempcomp_volts }
down_note inverter t d = record d {
  ac_volts_out = kept 1 t (to_float (get_int_value t)) d.ac_volts_out;
}
down_note grid t d = record d { ac1_volts_in = kept 1 t (to_float (pos 0)) d.ac1_volts_in }
down_note generator t d = record d { ac2_volts_in = kept 1 t (to_float (pos 0)) d.ac2_volts_in }
down_note frequency t d = record d { hertz = kept 1 t (get_int_value t) d.hertz }

store_down-meter :
    (mi : MenuItem) (m : Meter) (t : Text) (d : MeterData Decimal)
    → ltb 1 (length t) ≡ true
    → store_down (item_of mi m) t d ≡ done (false, down_note m t d)
unfolding item_of store_down down_note read_value store front_is middle_is set_item
store_down-meter mi input t d e = refl
store_down-meter mi load t d e = rw e refl
store_down-meter mi actual t d e = rw e refl
store_down-meter mi tempcomp t d e = rw e refl
store_down-meter mi inverter t d e = rw e refl
store_down-meter mi grid t d e = rw e refl
store_down-meter mi generator t d e = rw e refl
store_down-meter mi frequency t d e = rw e refl

-- Nothing of the load is read on the way up.
unfoldable pub up_note : ℤ → Meter → Text → MeterData Decimal → MeterData Decimal
up_note h input t d = record d { hertz = kept 0 t h d.hertz }
up_note h load t d = record d { hertz = kept 0 t h d.hertz }
up_note h actual t d = record d {
  battery_volts = kept 0 t (get_float_value t) d.battery_volts;
  hertz = kept 0 t h d.hertz;
}
up_note h tempcomp t d = record d {
  tempcomp_volts = kept 0 t (get_float_value t) d.tempcomp_volts;
  hertz = kept 0 t h d.hertz;
}
up_note h inverter t d = record d {
  ac_volts_out = kept 0 t (to_float (get_int_value t)) d.ac_volts_out;
  hertz = kept 0 t h d.hertz;
}
up_note h grid t d = record d {
  ac1_volts_in = kept 0 t (to_float (pos 0)) d.ac1_volts_in;
  hertz = kept 0 t h d.hertz;
}
up_note h generator t d = record d {
  ac2_volts_in = kept 0 t (to_float (pos 0)) d.ac2_volts_in;
  hertz = kept 0 t h d.hertz;
}
up_note h frequency t d = record d { hertz = kept 0 t h d.hertz }

store_up-meter :
    (h : ℤ) (mi : MenuItem) (m : Meter) (t : Text) (d : MeterData Decimal)
    → ltb 0 (length t) ≡ true
    → store_up h (item_of mi m) t d ≡ done (up_note h m t d)
unfolding item_of store_up up_note read_value store front_is middle_is set_item
store_up-meter h mi input t d e = rw e refl
store_up-meter h mi load t d e = rw e refl
store_up-meter h mi actual t d e = rw e refl
store_up-meter h mi tempcomp t d e = rw e refl
store_up-meter h mi inverter t d e = rw e refl
store_up-meter h mi grid t d e = rw e refl
store_up-meter h mi generator t d e = rw e refl
store_up-meter h mi frequency t d e = rw e refl

-- A short display changes nothing.
down_note-short :
    (m : Meter) (t : Text) (d : MeterData Decimal) → ltb 1 (length t) ≡ false → down_note m t d ≡ d
unfolding down_note
down_note-short input t d e = refl
down_note-short load t d e = rw e refl
down_note-short actual t d e = rw e refl
down_note-short tempcomp t d e = rw e refl
down_note-short inverter t d e = rw e refl
down_note-short grid t d e = rw e refl
down_note-short generator t d e = rw e refl
down_note-short frequency t d e = rw e refl

up_note-short :
    (h : ℤ) (m : Meter) (t : Text) (d : MeterData Decimal)
    → ltb 0 (length t) ≡ false
    → up_note h m t d ≡ d
unfolding up_note
up_note-short h input t d e = rw e refl
up_note-short h load t d e = rw e refl
up_note-short h actual t d e = rw e refl
up_note-short h tempcomp t d e = rw e refl
up_note-short h inverter t d e = rw e refl
up_note-short h grid t d e = rw e refl
up_note-short h generator t d e = rw e refl
up_note-short h frequency t d e = rw e refl

-- `ui` has the default table and is at item `k` of the heading "Meters".
pub record At (mi : MenuItem) (k : ℕ) (ui : Panel) : Type 0 where
  pub default_items : ui.items ≡ set_default_values mi
  pub heading : ui.menuheading ≡ 4
  pub item : ui.menuitem ≡ k
  pub still_open : ui.is_open ≡ true

pub current-meter :
    {mi : MenuItem} (m : Meter) {ui : Panel}
    → At mi (place m) ui
    → get_item ui.items ui.menuheading ui.menuitem ≡ some (item_of mi m)
current-meter {mi} m a = rw (a.default_items, a.heading, a.item) (get_item-meter mi m)

pub down_step-meter :
    {mi : MenuItem} (m : Meter) (ui : Panel) (d : MeterData Decimal)
    → At mi (place m) ui
    → down_step d ui ≡ done (false, down_note m ui.menudisp d)
unfolding down_step
down_step-meter {mi} m ui d a = elim (Bool-cases (ltb 1 (length ui.menudisp))) [
  | inl e ↦ rw (e, current-meter m a) (store_down-meter mi m ui.menudisp d e)
  | inr e ↦ rw e (ap (λ d'. done (false, d')) (sym (down_note-short m ui.menudisp d e)))
]

pub up_step-meter :
    {mi : MenuItem} (m : Meter) (h : ℤ) (ui : Panel) (d : MeterData Decimal)
    → At mi (place m) ui
    → up_step h d ui ≡ done (up_note h m ui.menudisp d)
unfolding up_step
up_step-meter {mi} m h ui d a = elim (Bool-cases (ltb 0 (length ui.menudisp))) [
  | inl e ↦ rw (e, current-meter m a) (store_up-meter h mi m ui.menudisp d e)
  | inr e ↦ rw e (ap done (sym (up_note-short h m ui.menudisp d e)))
]

-- ===== src/Outback/Parse.antt =====
-- `outback::parse`, with its reads of the columns of a status page in the order of the code.
pub mod Columns
pub mod Pages
use powerguru.Prelude.{
  ℕ, Bool, true, false, Option, none, some, leb, ◌&&◌, if◌then◌else◌, Text, length, take, drop,
}
use powerguru.Prelude.Int.{ℤ}
use powerguru.Std.Strtol.{strtol}
use powerguru.Outback.Device.{
  OutbackType, outback_none, outback_mx, outback_fx, Outback, RetCode, success, error, Run, done,
  out_of_range, ◌>>=◌, char_at,
}

-- `std::string::substr` throws if the position lies behind the end.
unfoldable pub substr : Text → ℕ → ℕ → Run Text
substr s position count =
    if leb position (length s) then done (take count (drop position s)) else out_of_range

-- `strtol (packet.substr (position, count).c_str (), NULL, 0)`.
unfoldable pub read_field : Text → ℕ → ℕ → Run ℤ
unfolding substr
read_field packet position count = do t ← substr packet position count; done (strtol t)

unfoldable pub is_fx : OutbackType → Bool
is_fx outback_fx = true
is_fx outback_mx = false
is_fx outback_none = false

unfoldable pub address_type : ℕ → Option OutbackType
address_type address =
    if leb b'0' address && leb address b'9'
    then some outback_fx
    else if leb b'A' address && leb address b'K'
    then some outback_mx
    else none

-- The fields up to the sell current. An assignment under `if (_type == OUTBACK_FX)` keeps the old
-- value for another device.
unfoldable pub read_currents : Text → Outback → Run Outback
read_currents packet d = do
  inverter ← read_field packet 3 2
  charge ← read_field packet 6 2
  third ← read_field packet 9 2
  input ← read_field packet 13 3
  output ← read_field packet 16 3
  sell ← if is_fx d.type then read_field packet 20 2 else done d.sell_current
  done (record d {
    inverter_current = inverter;
    charge_current = charge;
    buy_current = if is_fx d.type then third else d.buy_current;
    pv_current = if is_fx d.type then d.pv_current else third;
    ac_input_voltage = if is_fx d.type then input else d.ac_input_voltage;
    pv_input_voltage = if is_fx d.type then d.pv_input_voltage else input;
    ac_output_voltage = if is_fx d.type then output else d.ac_output_voltage;
    daily_kwh = if is_fx d.type then d.daily_kwh else output;
    sell_current = sell;
  })

-- The modes, the battery voltage and the checksum. The error mode and the warning mode are read
-- at byte 13.
unfoldable pub read_modes : Text → Outback → Run Outback
read_modes packet d = do
  mode ← read_field packet 23 2
  errors ← if is_fx d.type then read_field packet 13 3 else done d.error_mode
  ac ← read_field packet 30 2
  battery ← read_field packet 33 3
  misc ← if is_fx d.type then read_field packet 37 3 else done d.misc_byte
  warnings ← if is_fx d.type then read_field packet 13 3 else done d.warning_mode
  sum ← read_field packet 45 3
  done (record d {
    operating_mode = if is_fx d.type then mode else d.operating_mode;
    aux_mode = if is_fx d.type then d.aux_mode else mode;
    error_mode = errors;
    ac_mode = if is_fx d.type then ac else d.ac_mode;
    charge_mode = if is_fx d.type then d.charge_mode else ac;
    battery_voltage = battery;
    misc_byte = misc;
    warning_mode = warnings;
    checksum = sum;
  })

-- `_type = OUTBACK_MX; // FIXME:` follows the test of the address.
unfoldable pub parse : Outback → Text → Run (Outback × RetCode)
parse d packet = do
  address ← char_at packet 1
  let d1 = record d { address = address }
  elim (address_type address) [
    | none ↦ done (d1, error)
    | some t ↦
        read_currents packet (record (record d1 { type = t }) { type = outback_mx }) >>= λ d2.
        read_modes packet d2 >>= λ d3. done (d3, success)
  ]

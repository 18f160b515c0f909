-- ===== src/Outback/Dump.antt =====
-- `outback::dump`: the records that it writes to the log, and `outback::sendFXCommand`.
pub mod Masks
use powerguru.Prelude.{
  ℕ, ◌+◌, ◌-◌, ◌/◌, ◌%◌, ◌==◌, ◌&&◌, leb, Bool, true, false, List, [], ◌∷◌, ◌++◌, Text, codes,
  if◌then◌else◌,
}
use powerguru.Prelude.Int.{ℤ, pos, negsuc, sub_ℕ}
use powerguru.Std.Number.{print_int}
use powerguru.Serial.{write}
use powerguru.Outback.Device.{
  OutbackType, outback_none, outback_mx, outback_fx, Outback, RetCode, success, error,
}
use powerguru.Outback.Modes.{
  operating_mode_text, ac_mode_text, misc_byte_lines, aux_mode_text, charge_mode_text,
  error_mode_text, warning_mode_text,
}

-- `/` and `%` of C, which round towards zero.
unfoldable pub quotient : ℤ → ℕ → ℤ
quotient (pos n) d = pos (n / d)
quotient (negsuc n) d = sub_ℕ 0 ((n + 1) / d)

unfoldable pub remainder : ℤ → ℕ → ℤ
remainder (pos n) d = pos (n % d)
remainder (negsuc n) d = sub_ℕ 0 ((n + 1) % d)

unfoldable pub type_text : OutbackType → Text
type_text outback_mx = codes "Outback Power Systems MX Charge Controller"
type_text outback_fx = codes "Outback Power Systems FX inverter"
type_text outback_none = codes "Outback Power Systems, no type specified!"

-- The address is named if it is known.
unfoldable pub address_text : ℕ → Text
address_text address =
    codes "The address is: Unit #"
    ++ (if leb b'0' address && leb address b'9'
        then address ∷ []
        else if leb b'A' address && leb address b'K'
        then address ∷ []
        else [])

-- A reading that is 0 is not printed.
unless_zero : ℤ → Text → List Text
unless_zero (pos n) text = if n == 0 then [] else text ∷ []
unless_zero (negsuc n) text = text ∷ []

-- A number of tenths.
unfoldable pub tenths : ℤ → Text
unfolding quotient remainder
tenths v = print_int (quotient v 10) ++ b'.' ∷ print_int (remainder v 10)

-- The readings.
unfoldable pub reading_lines : Outback → List Text
unfolding unless_zero tenths quotient
reading_lines d =
    unless_zero d.inverter_current (codes "Inverter current is: " ++ print_int d.inverter_current)
    ++ unless_zero d.charge_current
        (codes "Charge current is: " ++ print_int d.charge_current ++ codes " Amps")
    ++ unless_zero d.buy_current
        (codes "Buy current is: " ++ print_int d.buy_current ++ codes " Amps")
    ++ unless_zero d.pv_current (codes "PV current is: " ++ print_int d.pv_current ++ codes " Amps")
    ++ unless_zero d.sell_current
        (codes "Sell current is: " ++ print_int d.sell_current ++ codes " Amps")
    ++ unless_zero d.ac_input_voltage
        (codes "AC Input voltage is: " ++ print_int d.ac_input_voltage ++ codes " VAC")
    ++ unless_zero d.ac_output_voltage
        (codes "AC Output voltage is: " ++ print_int d.ac_output_voltage ++ codes " VAC")
    ++ unless_zero d.pv_input_voltage
        (codes "PV Input voltage is: " ++ print_int (quotient d.pv_input_voltage 2) ++ codes " VDC")
    ++ unless_zero d.battery_voltage
        (codes "Battery voltage is: " ++ tenths d.battery_voltage ++ codes " VDC")
    ++ unless_zero d.daily_kwh
        (codes "The daily Kilowatts used is: " ++ tenths d.daily_kwh ++ codes " KW")

-- Each mode is announced by a record of its own.
unfoldable pub mode_lines : Outback → List Text
unfolding operating_mode_text ac_mode_text misc_byte_lines aux_mode_text charge_mode_text
    error_mode_text warning_mode_text
mode_lines d =
    (codes "The operating mode is: " ∷ operating_mode_text d.operating_mode ∷ [])
    ++ (codes "The AC mode is: \t" ∷ ac_mode_text d.ac_mode ∷ [])
    ++ (codes "The Misc Byte is: \t" ∷ misc_byte_lines d.misc_byte)
    ++ (codes "The Aux mode is: \t" ∷ aux_mode_text d.aux_mode ∷ [])
    ++ (codes "The charge mode is: \t" ∷ charge_mode_text d.charge_mode ∷ [])
    ++ (codes "The error mode is: \t" ∷ error_mode_text d.error_mode ∷ [])
    ++ (codes "The warning mode is: \t" ∷ warning_mode_text d.warning_mode ∷ [])

unfoldable pub dump : Outback → List Text
unfolding type_text address_text reading_lines mode_lines
dump d = type_text d.type ∷ address_text d.address ∷ reading_lines d ++ mode_lines d

is_two : ℤ → Bool
is_two (pos n) = n == 2
is_two (negsuc n) = false

-- `sendFXCommand`: what is written, and whether all of it was; each command is sent twice.
unfoldable pub send_fx_command : Bool → ℕ → Text × RetCode
unfolding write is_two
send_fx_command is_open cmd =
    let buf : Text = cmd ∷ cmd ∷ [] in
    (if is_open then buf else [], if is_two (write is_open buf) then success else error)

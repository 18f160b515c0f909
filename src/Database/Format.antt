-- ===== src/Database/Format.antt =====
-- lib/database.h: the rows of the 1 wire sensors as text. What `gettime` returns is an argument.
use powerguru.Prelude.{
  ℕ, ◌+◌, ◌-◌, ◌*◌, ◌/◌, ◌%◌, ◌^◌, ◌≡◌, refl, [], ◌∷◌, ◌++◌, Text, codes, length, if◌then◌else◌,
}
use powerguru.Prelude.Int.{ℤ, pos, negsuc, pos_part, neg_part}
use powerguru.Std.Str.{body}
use powerguru.Std.Number.{print_nat, emit}
use powerguru.Std.Convert.{Decimal, zeros}
use powerguru.Onewire.Families.{
  SensorType, ac_voltage, dc_voltage, auth, battery, clock, temperature, thermcouple, moisture,
  unsupported,
}
use powerguru.Onewire.Device.{Sensor}
use powerguru.Onewire.Reading.{Temperature, Battery}

-- `_ftable`.
abbrev pub type_name : SensorType → Text
type_name ac_voltage = codes "ACVOLTAGE"
type_name dc_voltage = codes "DCVOLTAGE"
type_name auth = codes "AUTHENTICATIN"
type_name battery = codes "BATTERY"
type_name clock = codes "CLOCK"
type_name temperature = codes "TEMPERATURE"
type_name thermcouple = codes "THERMOCOUPLE"
type_name moisture = codes "MOISTURE"
type_name unsupported = codes "UNSUPORTED"

-- `std::to_string` of a float: six digits behind the point, the last one rounded.
abbrev millionths : Decimal → ℕ
millionths d =
    (2 * (pos_part d.mantissa + neg_part d.mantissa) * 1000000 + 10 ^ d.places)
    / (2 * 10 ^ d.places)

abbrev sign : ℤ → Text
sign (pos n) = []
sign (negsuc n) = codes "-"

unfoldable pub to_string : Decimal → Text
unfolding print_nat
to_string d =
    let digits = print_nat (millionths d % 1000000) in
    sign d.mantissa
    ++ print_nat (millionths d / 1000000)
    ++ codes "."
    ++ zeros (6 - length digits) digits

-- `formatQuery` for a sensor, a temperature and a battery.
unfoldable pub format_sensor : Text → Sensor → Text
format_sensor stamp one = body (
    codes "'"
    ∷ one.family
    ∷ codes "'"
    ∷ codes ", '"
    ∷ one.id
    ∷ codes "'"
    ∷ codes ", '"
    ∷ one.alias
    ∷ codes "'"
    ∷ codes ", "
    ∷ type_name one.type
    ∷ codes ", '"
    ∷ stamp
    ∷ codes "'"
    ∷ [])

unfoldable pub format_temperature : Text → Temperature → Text
unfolding to_string
format_temperature stamp t = body (
    codes "'"
    ∷ t.id
    ∷ codes "'"
    ∷ codes ", "
    ∷ to_string t.temp
    ∷ codes ", "
    ∷ to_string t.hightemp
    ∷ codes ", "
    ∷ to_string t.lowtemp
    ∷ codes ", '"
    ∷ (t.scale ∷ [])
    ∷ codes "', '"
    ∷ stamp
    ∷ codes "'"
    ∷ [])

unfoldable pub format_battery : Text → Battery → Text
unfolding to_string
format_battery stamp b = body (
    codes "'"
    ∷ b.id
    ∷ codes "'"
    ∷ codes ", "
    ∷ to_string b.current
    ∷ codes ", "
    ∷ to_string b.volts
    ∷ codes ", '"
    ∷ (if b.dc then codes "DC'" else codes "AC'")
    ∷ codes ", '"
    ∷ stamp
    ∷ codes "'"
    ∷ [])

printed :
    (to_string (record { mantissa = pos 77225; places = 3 }) ≡ codes "77.225000")
    × (to_string (record { mantissa = negsuc 4; places = 7 }) ≡ codes "-0.000001")
unfolding to_string emit
printed = (refl, refl)

-- ===== src/Onewire/Reading.antt =====
-- devices/onewire.cc: `getBattery` and `getTemperature`. A `float` is an exact decimal number.
use powerguru.Prelude.{
  ℕ, suc, ◌+◌, ◌-◌, ◌*◌, ◌/◌, ◌%◌, ◌^◌, Bool, true, ◌&&◌, List, [], ◌∷◌, Option, none, some, Text,
  codes, ltb, leb, ◌==◌, if◌then◌else◌, length, drop, map, zero,
}
use powerguru.Prelude.Int.{ℤ, pos, negsuc, ◌+ℤ◌, ◌*ℤ◌}
use powerguru.Std.Convert.{
  Result, done, throws, null_pointer, ◌>>=◌, out_of_range, Decimal, stof, stoll_hex, print_hex,
}
use powerguru.Onewire.Families.{battery}
use powerguru.Onewire.Device.{FileSystem, Onewire, find_sensor, get_value}

-- `temperature_t`.
pub record Temperature : Type 0 where
  pub id : Text
  pub temp : Decimal
  pub lowtemp : Decimal
  pub hightemp : Decimal
  pub scale : ℕ

-- `battery_t`.
pub record Battery : Type 0 where
  pub id : Text
  pub current : Decimal
  pub volts : Decimal
  pub dc : Bool

abbrev pub zero_float : Decimal
zero_float = record { mantissa = pos 0; places = 0 }

abbrev pub thousandths : Decimal → Decimal
thousandths d = record { mantissa = d.mantissa; places = d.places + 3 }

-- `convertScale`: 1.8 of the number and 32.
unfoldable pub convert_scale : Decimal → Decimal
unfolding ◌+ℤ◌ ◌*ℤ◌
convert_scale d = record {
  mantissa = d.mantissa *ℤ pos 18 +ℤ pos (320 * 10 ^ d.places);
  places = d.places + 1;
}

-- `idnum << 16` in 64 bits.
abbrev pub two_64 : ℕ
two_64 = 18446744073709551616

unfoldable pub shift_16 : ℤ → ℕ
shift_16 (pos n) = n * 65536 % two_64
shift_16 (negsuc n) = (two_64 - suc n * 65536 % two_64) % two_64

-- The bytes of a number, the lowest first, and the number of which they are the bytes, the highest
-- first.
unfoldable pub bytes_of : ℕ → ℕ → List ℕ
bytes_of zero n = []
bytes_of (suc count) n = n % 256 ∷ bytes_of count (n / 256)

unfoldable pub from_bytes : ℕ → List ℕ → ℕ
from_bytes acc [] = acc
from_bytes acc (byte ∷ bytes) = from_bytes (acc * 256 + byte) bytes

-- `boost::endian::endian_reverse` of 64 bits.
unfoldable pub endian_reverse : ℕ → ℕ
unfolding bytes_of from_bytes
endian_reverse n = from_bytes 0 (bytes_of 8 n)

abbrev pub to_upper : ℕ → ℕ
to_upper c = if leb b'a' c && leb c b'z' then c - 32 else c

-- The id that `getTemperature` stores.
unfoldable pub sensor_id : Text → Result Text
unfolding stoll_hex shift_16 endian_reverse print_hex
sensor_id id =
    stoll_hex id >>= λ idnum. done (map to_upper (print_hex 12 (endian_reverse (shift_16 idnum))))

unfoldable pub float_or_zero : Text → Result Decimal
unfolding stof
float_or_zero result = if length result == 0 then done zero_float else stof result

-- `result[0]`, which is the NUL for an empty text.
abbrev first_char : Text → ℕ
first_char [] = 0
first_char (c ∷ s) = c

-- What is read off the text of `w1_slave`.
unfoldable pub bus_value : ℕ → Text → Text → Result Temperature
unfolding stof convert_scale
bus_value scale id result =
    if ltb (length result) 69
    then throws out_of_range
    else stof (drop 69 result) >>= λ value. done (record {
      id = id;
      temp = if scale == b'F' then convert_scale (thousandths value) else thousandths value;
      lowtemp = zero_float;
      hightemp = zero_float;
      scale = scale;
    })

module _ (files : FileSystem) where
  -- The two branches of `getTemperature`.
  unfoldable pub bus_temperature : Onewire → Text → Text → Result Temperature
  unfolding get_value bus_value
  bus_temperature o device id =
      bus_value o.scale id (get_value files o device (codes "w1_slave") [])

  unfoldable pub owfs_temperature : Onewire → Text → Text → Result Temperature
  unfolding get_value float_or_zero
  owfs_temperature o device id =
      let result1 = get_value files o device (codes "temperature") [] in
      let result2 = get_value files o device (codes "temphigh") result1 in
      let result3 = get_value files o device (codes "templow") result2 in
      let result4 = get_value files o [] (codes "/settings/units/temperature_scale") result3 in
      float_or_zero result1 >>= λ temp. float_or_zero result2 >>= λ hightemp.
      float_or_zero result3 >>= λ lowtemp. done (record {
        id = id;
        temp = temp;
        lowtemp = lowtemp;
        hightemp = hightemp;
        scale = first_char result4;
      })

  -- `getTemperature`: for a device that is not there, `_sensors[device]` is a null pointer.
  unfoldable pub get_temperature : Onewire → Text → Result Temperature
  unfolding find_sensor sensor_id bus_temperature owfs_temperature
  get_temperature o device = elim (find_sensor o.sensors device) [
    | none ↦ null_pointer
    | some sensor ↦ sensor_id sensor.id >>= λ id.
        if sensor.bus then bus_temperature o device id else owfs_temperature o device id
  ]

  -- `getBattery`: no battery is returned for another sensor.
  unfoldable pub get_battery : Onewire → Text → Result (Option Battery)
  unfolding find_sensor get_value stof
  get_battery o device = elim (find_sensor o.sensors device) [
    | none ↦ null_pointer
    | some sensor ↦
        let id = get_value files o device (codes "id") [] in
        let current = get_value files o device (codes "current") id in
        let volts = get_value files o device (codes "volts") current in
        elim sensor.type [
          | battery ↦ stof current >>= λ a. stof volts >>= λ v.
              done (some (record { id = id; current = a; volts = v; dc = true }))
          | _ ↦ done none
        ]
  ]

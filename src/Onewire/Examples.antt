-- ===== src/Onewire/Examples.antt =====
-- A thermometer on the bus of the kernel.
use powerguru.Prelude.{
  ◌≡◌, refl, true, List, [], ◌∷◌, ◌++◌, Option, none, some, Text, codes, if◌then◌else◌, map, arith,
}
use powerguru.Prelude.Int.{pos}
use powerguru.Std.Str.{eq_text}
use powerguru.Std.Number.{print_int}
use powerguru.Std.Convert.{done}
use powerguru.Onewire.Families.{temperature}
use powerguru.Onewire.Device.{FileSystem, Onewire, Sensor, blank, find_sensor}
use powerguru.Onewire.Reading.{sensor_id, to_upper, get_temperature}
use powerguru.Onewire.Ids.{hex_text, sensor_id-hex_text}
use powerguru.Onewire.Temperatures.{reading, get_temperature-reading}

abbrev path : Text
path = codes "/sys/bus/w1/devices/28-0316a4d6aaff"

abbrev head : Text
head = codes "72 01 4b 46 7f ff 0e 10 57 : crc=57 YES\n72 01 4b 46 7f ff 0e 10 57 t="

-- The names on the bus, and the text of the thermometer.
abbrev names : List Text
names = codes "28-0316a4d6aaff" ∷ codes "w1_bus_master1" ∷ []

abbrev slave : Text → Option Text
unfolding eq_text
slave file =
    if eq_text file (path ++ codes "/" ++ codes "w1_slave")
    then some (head ++ (print_int (pos 23125) ++ 10 ∷ []))
    else none

abbrev files : FileSystem
unfolding eq_text
files = record {
  directory = λ d. if eq_text d (codes "/sys/bus/w1/devices") then some names else none;
  file = λ f. slave f;
}

abbrev thermometer : Sensor
thermometer = record {
  family = codes "28";
  id = codes "0316a4d6aaff";
  alias = [];
  device = codes "28-0316a4d6aaff";
  type = temperature;
  bus = true;
}

abbrev onewire : Onewire
onewire = record blank {
  rootdir = codes "/sys/bus/w1/devices";
  mounted = true;
  sensors = (path, thermometer) ∷ [];
}

sensor_id-hex_text_example :
    sensor_id (hex_text (3 ∷ 22 ∷ 164 ∷ 214 ∷ 170 ∷ 255 ∷ []))
    ≡ done (map to_upper (hex_text (255 ∷ 170 ∷ 214 ∷ 164 ∷ 22 ∷ 3 ∷ [])))
sensor_id-hex_text_example =
    sensor_id-hex_text 3 22 164 214 170 255 (omega arith) (omega arith) (omega arith) (omega arith)
      (omega arith) (omega arith)

get_temperature-reading_example :
    get_temperature files onewire path ≡ done (reading 70 (codes "FFAAD6A41603") (pos 23125))
unfolding files slave find_sensor sensor_id
get_temperature-reading_example =
    get_temperature-reading files onewire path (codes "FFAAD6A41603") head thermometer (pos 23125)
      refl (λ e. cc) refl refl refl refl refl (omega arith)

-- ===== src/Onewire/Device.antt =====
-- devices/onewire.cc and .h: the object of the 1 wire sensors, its files and its constructor. What the
-- directories and the files hold is an argument.
use powerguru.Prelude.{
  ℕ, Bool, true, false, not, ◌&&◌, ◌||◌, List, [], ◌∷◌, ◌++◌, Option, none, some, Text, codes, ltb,
  leb, ◌==◌, if◌then◌else◌, length, take, drop,
}
use powerguru.Std.Str.{eq_text}
use powerguru.Std.Convert.{Result, done, throws, ◌>>=◌, out_of_range}
use powerguru.Onewire.Families.{SensorType, type_of}

-- The names in a directory, where there is one, and the contents of a file, where it can be read.
pub record FileSystem : Type 0 where
  pub directory : Text → Option (List Text)
  pub file : Text → Option Text

-- `onewire_t`; `active` is never set.
pub record Sensor : Type 0 where
  pub family : Text
  pub id : Text
  pub alias : Text
  pub device : Text
  pub type : SensorType
  pub bus : Bool

-- `class Onewire`, and what it wrote to files. The map `_family` is the table.
pub record Onewire : Type 0 where
  pub poll_sleep : ℕ
  pub scale : ℕ
  pub rootdir : Text
  pub mounted : Bool
  pub sensors : List (Text × Sensor)
  pub written : List (Text × Text)

-- `_sensors[key] = sensor`, and a look up.
unfoldable pub put_sensor : List (Text × Sensor) → Text → Sensor → List (Text × Sensor)
unfolding eq_text
put_sensor [] key sensor = (key, sensor) ∷ []
put_sensor ((key', old) ∷ sensors) key sensor =
    let rest = put_sensor sensors key sensor in
    if eq_text key' key then (key', sensor) ∷ sensors else (key', old) ∷ rest

unfoldable pub find_sensor : List (Text × Sensor) → Text → Option Sensor
unfolding eq_text
find_sensor [] key = none
find_sensor ((key', sensor) ∷ sensors) key =
    let rest = find_sensor sensors key in if eq_text key' key then some sensor else rest

abbrev pub filespec : Onewire → Text → Text → Text
filespec o device name = (if length device == 0 then o.rootdir else device ++ codes "/") ++ name

-- `setValue`.
unfoldable pub set_value : Text → Text → Text → Onewire → Onewire
set_value device name value o =
    if o.mounted
    then record o { written = o.written ++ (filespec o device name, value) ∷ [] }
    else o

-- The names that the two regular expressions match.
abbrev pub is_owfs_char : ℕ → Bool
is_owfs_char c = (leb b'A' c && leb c b'Z') || (leb b'0' c && leb c b'9') || c == b'.'

abbrev pub is_bus_char : ℕ → Bool
is_bus_char c = (leb b'a' c && leb c b'z') || (leb b'0' c && leb c b'9') || c == b'-'

unfoldable pub matches : (ℕ → Bool) → Text → Bool
matches p [] = true
matches p (c ∷ name) = p c && matches p name

-- The members before the scan.
abbrev pub blank : Onewire
blank = record {
  poll_sleep = 300;
  scale = b'F';
  rootdir = codes "/mnt/1wire";
  mounted = false;
  sensors = [];
  written = [];
}

-- A sensor of the bus of the kernel: the family is the first two characters of the name, the id
-- what stands behind the third.
unfoldable pub bus_sensor : Text → Sensor
unfolding type_of
bus_sensor name = record {
  family = take 2 name;
  id = drop 3 name;
  alias = [];
  device = name;
  type = type_of (take 2 name);
  bus = true;
}

unfoldable pub add_bus : Text → Onewire → Result Onewire
unfolding put_sensor bus_sensor matches
add_bus name o =
    if not (matches is_bus_char name)
    then done o
    else if ltb (length name) 3
    then throws out_of_range
    else done (record o {
      mounted = true;
      sensors = put_sensor o.sensors (o.rootdir ++ codes "/" ++ name) (bus_sensor name);
    })

unfoldable pub scan_bus : List Text → Onewire → Result Onewire
unfolding add_bus
scan_bus [] o = done o
scan_bus (name ∷ names) o = add_bus name o >>= λ o'. scan_bus names o'

module _ (files : FileSystem) where
  -- `getValue`: a file that cannot be opened has an empty text.
  unfoldable pub get_value : Onewire → Text → Text → Text → Text
  get_value o device name result =
      if o.mounted
      then elim (files.file (filespec o device name)) [ none ↦ [] | some text ↦ text ]
      else result

  -- A sensor of the file system of owfs: what has no family is passed over.
  unfoldable pub add_owfs : Text → Onewire → Onewire
  unfolding get_value put_sensor type_of matches
  add_owfs name o =
      let path = o.rootdir ++ codes "/" ++ name in
      let family = get_value o path (codes "family") [] in
      let id = get_value o [] (codes "id") family in
      let alias = get_value o [] (codes "alias") id in
      if matches is_owfs_char name && not (length family == 0)
      then record o {
        sensors = put_sensor o.sensors path (record {
          family = family;
          id = alias;
          alias = [];
          device = family ++ codes "." ++ alias;
          type = type_of family;
          bus = false;
        });
      }
      else o

  unfoldable pub scan_owfs : List Text → Onewire → Onewire
  unfolding add_owfs
  scan_owfs [] o = o
  scan_owfs (name ∷ names) o = scan_owfs names (add_owfs name o)

  -- The first half of the constructor.
  unfoldable pub scan_mounted : Onewire → Onewire
  unfolding scan_owfs
  scan_mounted o = elim (files.directory o.rootdir) [
    | none ↦ record o { mounted = false }
    | some names ↦ scan_owfs names o
  ]

  -- The second half, where the first found nothing.
  unfoldable pub scan_kernel : Onewire → Result Onewire
  unfolding scan_bus
  scan_kernel o =
      let o' = record o { rootdir = codes "/sys/bus/w1/devices" } in
      if length o.sensors == 0
      then elim (files.directory (codes "/sys/bus/w1/devices")) [
        | none ↦ done o'
        | some names ↦ scan_bus names o'
      ]
      else done o

  -- `Onewire::Onewire`.
  unfoldable pub new : Result Onewire
  unfolding scan_mounted scan_kernel set_value
  new = scan_kernel (scan_mounted blank) >>= λ o.
      done (set_value [] (codes "/settings/units/temperature_scale") (codes "F") o)

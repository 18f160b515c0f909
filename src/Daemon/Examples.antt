-- ===== src/Daemon/Examples.antt =====
-- A client that greets the daemon and asks for its devices.
use powerguru.Std.Str.{contains, eq_text, find}
use powerguru.Std.Convert.{Decimal, stof, skip_spaces, read_digits}
use powerguru.Std.Strtol.{is_space}
use powerguru.Onewire.Reading.{Battery, get_battery, sensor_id}
use powerguru.Prelude.Int.{pos}
use powerguru.Database.Postgres.{Postgres}
use powerguru.Onewire.Families.{SensorType, battery, temperature}
use powerguru.Onewire.Device.{FileSystem, Onewire, Sensor, find_sensor, get_value}
use powerguru.Daemon.Sensors.{onewire_handler, by_key, insert_key, text_before}
use powerguru.Daemon.Rows.{power}
use powerguru.Daemon.Stored.{Readable, Stores, onewire_handler-missing_file}
use powerguru.Daemon.Owserver.{ownet_handler, ownet_handler-third_attempt}
use powerguru.Database.Postgres
use powerguru.Ownet.{OwServer, Ownet}
use powerguru.Ownet
use powerguru.Prelude.{
  ◌==◌, ℕ, ◌≡◌, refl, true, List, [], ◌∷◌, ◌++◌, Option, none, some, Text, codes, map, arith,
  if◌then◌else◌, inl, inr,
}
use powerguru.Std.Str.{starts_with}
use powerguru.Std.Convert.{done, throws, out_of_range, null_pointer}
use powerguru.Network.Receive.{filled, is_xml}
use powerguru.Commands.{list}
use powerguru.Xml.{LibNode, text, Root, LibXml}
use powerguru.Daemon.Client.{Session, received, end_of_file, client_loop}
use powerguru.Daemon.Serve.{
  Request, greet, ask, wire, tree_of, node_of, root_of, serve_all, client_loop-serve_all,
  client_loop-null_pointer,
}

abbrev requests : List Request
requests = greet (codes "shed") (codes "rob") ∷ ask list (codes "devices") ∷ []

-- A parser that knows the two requests.
parse : Text → Option Root
unfolding starts_with node_of
parse s =
    if starts_with
      (codes "<command><helo><hostname>shed</hostname><user>rob</user></helo></command>") s
    then some (root_of (tree_of (greet (codes "shed") (codes "rob"))))
    else if starts_with (codes "<command><list>devices</list></command>") s
    then some (root_of (tree_of (ask list (codes "devices"))))
    else none

text_content : LibNode → Option Text
text_content (text t) = some t
text_content _ = none

abbrev lib : LibXml
unfolding text_content
lib = record {
  parse_memory = parse;
  parse_file = λ name. none;
  node_content = text_content;
  node_content-text = λ t. refl;
}

abbrev fresh : Session
fresh = record { hostname = []; sent = [] }

client_loop-serve_all_example :
    client_loop lib (map (λ r. received (wire r)) requests ++ end_of_file ∷ []) fresh
    ≡ done (serve_all requests fresh)
unfolding parse lib filled wire
client_loop-serve_all_example =
    client_loop-serve_all lib requests fresh ((ground arith, ground arith), (tt, tt))
      (refl, (refl, tt))

client_loop-null_pointer_example :
    client_loop lib (received (codes "<helo") ∷ []) fresh ≡ null_pointer
unfolding parse lib filled is_xml
client_loop-null_pointer_example =
    client_loop-null_pointer lib (codes "<helo") [] [] fresh refl (inl refl)

-- A battery and a temperature sensor of the kernel.
abbrev battery_key : Text
battery_key = codes "/mnt/1wire/20"

abbrev temperature_key : Text
temperature_key = codes "/mnt/1wire/28"

abbrev sensor_of : Text → Text → SensorType → Sensor
sensor_of family id type = record {
  family = family;
  id = id;
  alias = [];
  device = [];
  type = type;
  bus = true;
}

abbrev with_sensors : List (Text × Sensor) → Onewire
with_sensors sensors = record {
  poll_sleep = 300;
  scale = b'F';
  rootdir = codes "/mnt/1wire";
  mounted = true;
  sensors = sensors;
  written = [];
}

abbrev battery_entry : Text × Sensor
battery_entry = (battery_key, sensor_of (codes "30") (codes "0a") battery)

abbrev temperature_entry : Text × Sensor
temperature_entry = (temperature_key, sensor_of (codes "28") (codes "1") temperature)

-- Each file of the battery is a number; the temperature has none.
abbrev some_files : ℕ → FileSystem
some_files round = record {
  directory = λ path. none;
  file = λ path. if contains (codes "w1_slave") path then none else some (codes "12.5");
}

abbrev noon : ℕ → Text
noon n = codes "2019-01-04 12:00:00"

abbrev twelve : Decimal
twelve = record { mantissa = pos 125; places = 1 }

abbrev battery_reading : Battery
battery_reading = record { id = codes "12.5"; current = twelve; volts = twelve; dc = true }

abbrev both : List (Text × Sensor)
both = battery_entry ∷ temperature_entry ∷ []

front_read : Readable some_files noon (with_sensors both) 0 (battery_entry ∷ [])
unfolding Readable get_battery find_sensor get_value stof eq_text contains find starts_with
    skip_spaces read_digits is_space
front_read = (inr (power battery_reading, refl), tt)

onewire_handler-missing_file_example :
    (pdb : Postgres) × (onewire_handler some_files noon (with_sensors both) 3
      ≡ (throws out_of_range, pdb))
    × Stores some_files noon (with_sensors both) 0 0 (battery_entry ∷ []) pdb.executed
unfolding by_key insert_key text_before find_sensor eq_text sensor_id contains find starts_with
onewire_handler-missing_file_example =
    onewire_handler-missing_file some_files noon (with_sensors both) 2 (battery_entry ∷ []) []
      temperature_key (codes "010000000000") temperature_entry.1 refl refl refl front_read refl refl
      refl refl refl

abbrev temperature_server : OwServer
unfolding eq_text
temperature_server = record {
  init = λ host attempt. attempt == 2;
  get = λ path.
      if eq_text path (codes "/")
      then some (codes "28.FFAAD6A41603/")
      else if eq_text path (codes "28.FFAAD6A41603/family")
      then some (codes "28")
      else none;
}

ownet_handler-third_attempt_example :
    (ownet : Ownet) × (Ownet.new temperature_server (codes "pi") ≡ done ownet)
    × (ownet.owserver ≡ true)
    × (ownet_handler (λ round. temperature_server) noon ownet 5 ≡ (done tt, Postgres.new))
unfolding temperature_server
ownet_handler-third_attempt_example =
    ownet_handler-third_attempt temperature_server (codes "pi") (λ round. temperature_server) noon 5
      refl refl refl

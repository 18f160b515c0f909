-- ===== src/Ownet.antt =====
-- devices/ownet.cc and .h: the 1 wire sensors behind an owserver. What the client library answers is an
-- argument.
pub mod Attempts
mod Examples
use powerguru.Prelude.{
  ℕ, zero, suc, ◌+◌, ◌==◌, ltb, Bool, true, false, List, [], ◌∷◌, ◌++◌, Option, none, some, Text,
  codes, length, if◌then◌else◌,
}
use powerguru.Std.Str.{find}
use powerguru.Std.Split.{split}
use powerguru.Std.Convert.{Result, done, throws, null_pointer, ◌>>=◌, Decimal, stof}
use powerguru.Onewire.Families.{SensorType, temperature, battery, type_of}
use powerguru.Onewire.Device.{Sensor, put_sensor, find_sensor}
use powerguru.Onewire.Reading.{Temperature, Battery, zero_float}

-- Whether `OW_init` works for a host in the attempt with a number, and the text that `OW_get` gives for
-- a path.
pub record OwServer : Type 0 where
  pub init : Text → ℕ → Bool
  pub get : Text → Option Text

-- `Ownet`, with what `OW_put` was given.
pub record Ownet : Type 0 where
  pub poll_sleep : ℕ
  pub scale : ℕ
  pub owserver : Bool
  pub sensors : List (Text × Sensor)
  pub written : List (Text × Text)

abbrev pub unconnected : Ownet
unconnected = record {
  poll_sleep = 300;
  scale = b'F';
  owserver = false;
  sensors = [];
  written = [];
}

-- The port of owserver behind a host without one.
unfoldable pub with_port : Text → Text
unfolding find
with_port host = elim (find (codes ":") host 0) [ none ↦ host ++ codes ":4304" | some pos ↦ host ]

abbrev pub units : Text
units = codes "/settings/units/temperature_scale"

unfoldable pub put_scale : Ownet → Ownet
put_scale o = record o { written = o.written ++ (units, o.scale ∷ []) ∷ [] }

abbrev pub first_char : Text → ℕ
first_char [] = 0
first_char (c ∷ s) = c

-- What a reading is where one of its texts is no number.
abbrev caught : Text → Result (Decimal × Decimal × Decimal) → Temperature
caught id (done (temp, lowtemp, hightemp)) = record {
  id = id;
  temp = temp;
  lowtemp = lowtemp;
  hightemp = hightemp;
  scale = 0;
}
caught id _ = record {
  id = id;
  temp = zero_float;
  lowtemp = zero_float;
  hightemp = zero_float;
  scale = 0;
}

module _ (server : OwServer) where
  -- `getValue`: a value that is not there leaves the text of the one before.
  unfoldable pub get_value : Text → Text → Text → Text
  get_value device file before = elim (server.get (device ++ file)) [
    | none ↦ before
    | some text ↦ text
  ]

  unfoldable pub get_battery : Ownet → Text → Result (Option Battery)
  unfolding find_sensor get_value stof
  get_battery o device = elim (find_sensor o.sensors device) [
    | none ↦ null_pointer
    | some sensor ↦
        let current = get_value device (codes "current") [] in
        let volts = get_value device (codes "volts") current in
        elim sensor.type [
          | battery ↦ stof current >>= λ a. stof volts >>= λ v.
              done (some (record { id = sensor.id; current = a; volts = v; dc = true }))
          | _ ↦ done none
        ]
  ]

  -- The three numbers, in the order in which they are read.
  unfoldable pub three_floats : Text → Result (Decimal × Decimal × Decimal)
  unfolding get_value stof
  three_floats device =
      let text1 = get_value device (codes "temperature") [] in
      let text2 = get_value device (codes "templow") text1 in
      let text3 = get_value device (codes "temphigh") text2 in
      stof text1 >>= λ temp.
      stof text2 >>= λ lowtemp. stof text3 >>= λ hightemp. done (temp, lowtemp, hightemp)

  -- `getTemperature`: without a scale a pointer that was never set is followed.
  unfoldable pub get_temperature : Ownet → Text → Result (Option Temperature)
  unfolding find_sensor three_floats
  get_temperature o device = elim (find_sensor o.sensors device) [
    | none ↦ null_pointer
    | some sensor ↦ elim sensor.type [
      | temperature ↦ elim (server.get units) [
        | none ↦ null_pointer
        | some buffer ↦
            done
              (some (record (caught sensor.id (three_floats device)) { scale = first_char buffer }))
      ]
      | _ ↦ done none
    ]
  ]

  -- The sensor of a name: without a family there is none. `bus` is not set.
  unfoldable pub sensor_at : Text → Option Sensor
  unfolding get_value type_of
  sensor_at name =
      let family = get_value name (codes "family") [] in
      let id = get_value name (codes "id") family in
      let alias = get_value name (codes "alias") id in
      if length family == 0
      then none
      else some (record {
        family = family;
        id = id;
        alias = alias;
        device = family ++ codes "." ++ id;
        type = type_of family;
        bus = false;
      })

  -- A battery and a thermometer are read once: the exception of the first is not caught.
  unfoldable pub try_sensor : SensorType → Text → Ownet → Result Ownet
  unfolding get_battery get_temperature
  try_sensor battery name o = get_battery o name >>= λ b. done o
  try_sensor temperature name o = get_temperature o name >>= λ t. done o
  try_sensor _ name o = done o

  unfoldable pub scan : List Text → Ownet → Result Ownet
  unfolding sensor_at put_sensor try_sensor
  scan [] o = done o
  scan (name ∷ names) o = elim (sensor_at name) [
    | none ↦ scan names o
    | some sensor ↦
        try_sensor sensor.type name (record o { sensors = put_sensor o.sensors name sensor })
        >>= λ o1. scan names o1
  ]

  -- The loop of `OW_init`: whether it worked, and what is left of `retries`; `-1` is 0 as well.
  unfoldable pub connect : ℕ → ℕ → Text → Bool × ℕ
  connect zero attempt host = (false, 0)
  connect (suc retries) attempt host =
      let again = connect retries (attempt + 1) host in
      if server.init host attempt then (true, retries) else again

  -- What follows where `retries` is above 0.
  unfoldable pub set_up : Ownet → Result Ownet
  unfolding put_scale scan split
  set_up o = elim (server.get (codes "/")) [
    | none ↦ done (put_scale o)
    | some buf ↦ scan (split b',' buf) (put_scale o)
  ]

  unfoldable pub new : Text → Result Ownet
  unfolding connect set_up with_port
  new host =
      let (connected, retries) = connect 3 0 (with_port host) in
      let o = record unconnected { owserver = connected } in
      let ready = set_up o in if ltb 0 retries then ready else done o

-- ===== src/Daemon/Sensors.antt =====
-- daemon/threads.cc: `onewire_handler`, the thread that stores what the 1 wire sensors show. The files
-- and the time are arguments, functions of the round and, for the time, of the command.
use powerguru.Prelude.{
  ℕ, zero, suc, Bool, true, false, List, [], ◌∷◌, Option, none, some, Text, codes, length, ltb,
  ◌==◌, ◌&&◌, if◌then◌else◌,
}
use powerguru.Std.Convert.{Result, done, throws, null_pointer}
use powerguru.Onewire.Families.{SensorType, temperature, battery}
use powerguru.Onewire.Device.{FileSystem, Onewire, Sensor}
use powerguru.Onewire.Reading.{get_temperature, get_battery}
use powerguru.Database.Format.{format_temperature, format_battery}
use powerguru.Database.Postgres.{Postgres, new, open_db, query_insert}

-- The order of the keys of a `std::map`.
unfoldable pub text_before : Text → Text → Bool
text_before s [] = false
text_before [] (d ∷ t) = true
text_before (c ∷ s) (d ∷ t) =
    let rest = text_before s t in if ltb c d then true else if c == d then rest else false

unfoldable pub insert_key : Text × Sensor → List (Text × Sensor) → List (Text × Sensor)
unfolding text_before
insert_key new_one [] = new_one ∷ []
insert_key (key, sensor) ((key', sensor') ∷ sensors) =
    let rest = insert_key (key, sensor) sensors in
    if text_before key key'
    then (key, sensor) ∷ (key', sensor') ∷ sensors
    else (key', sensor') ∷ rest

unfoldable pub by_key : List (Text × Sensor) → List (Text × Sensor)
unfolding insert_key
by_key [] = []
by_key (entry ∷ sensors) = insert_key entry (by_key sensors)

-- The query and its table, where the sensor is stored at all.
unfoldable pub reading_by :
    SensorType → FileSystem → Onewire → Text → Text → Result (Option (Text × Text))
unfolding get_temperature get_battery format_temperature format_battery
reading_by temperature files onewire stamp key = elim (get_temperature files onewire key) [
  | done temp ↦ done (some (format_temperature stamp temp, codes "weather"))
  | throws e ↦ throws e
  | null_pointer ↦ null_pointer
]
reading_by battery files onewire stamp key = elim (get_battery files onewire key) [
  | done batt ↦ elim batt [
    | some b ↦ done (some (format_battery stamp b, codes "battery"))
    | none ↦ done none
  ]
  | throws e ↦ throws e
  | null_pointer ↦ null_pointer
]
reading_by _ files onewire stamp key = done none

unfoldable pub reading_of :
    FileSystem → Onewire → Text → Sensor → Text → Result (Option (Text × Text))
unfolding reading_by
reading_of files onewire stamp sensor key = reading_by sensor.type files onewire stamp key

module _ (files : ℕ → FileSystem) (clock : ℕ → Text) (onewire : Onewire) where
  -- The `for` loop: the database, and how the loop ends.
  unfoldable pub poll_sensors : ℕ → List (Text × Sensor) → Postgres → Result (Unit {0}) × Postgres
  unfolding reading_of query_insert
  poll_sensors round [] pdb = (done tt, pdb)
  poll_sensors round ((key, sensor) ∷ sensors) pdb =
      elim (reading_of (files round) onewire (clock (length pdb.executed)) sensor key) [
        | done row ↦ elim row [
          | some r ↦ poll_sensors round sensors (query_insert r.0 r.1 pdb).1
          | none ↦ poll_sensors round sensors pdb
        ]
        | throws e ↦ (throws e, pdb)
        | null_pointer ↦ (null_pointer, pdb)
      ]

  -- `rounds` rounds of the `while` loop, the first with the number `round`: an exception ends it.
  unfoldable pub poll_rounds : ℕ → ℕ → Postgres → Result (Unit {0}) × Postgres
  unfolding by_key
  poll_rounds zero round pdb = (done tt, pdb)
  poll_rounds (suc rounds) round pdb =
      let (ending, pdb1) = poll_sensors round (by_key onewire.sensors) pdb in
      elim ending [
        | done _ ↦ poll_rounds rounds (suc round) pdb1
        | throws e ↦ (throws e, pdb1)
        | null_pointer ↦ (null_pointer, pdb1)
      ]

  -- `onewire_handler`, for as many rounds; without a sleep the loop has none.
  unfoldable pub onewire_handler : ℕ → Result (Unit {0}) × Postgres
  unfolding open_db
  onewire_handler rounds =
      let polled = poll_rounds rounds 0 (open_db new).1 in
      if onewire.mounted && ltb 0 onewire.poll_sleep then polled else (done tt, new)

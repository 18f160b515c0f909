-- ===== src/Daemon/Owserver.antt =====
-- daemon/threads.cc: `ownet_handler`, the thread that stores what the sensors of an owserver show. The
-- answers of the server and the time are arguments, functions of the round and, for the time, of the
-- command.
use powerguru.Prelude.{
  ℕ, zero, suc, ◌≡◌, refl, ◌∙◌, true, false, List, [], ◌∷◌, Option, none, some, Text, codes, length,
  ltb, if◌then◌else◌,
}
use powerguru.Std.Convert.{Result, done, throws, null_pointer}
use powerguru.Onewire.Families.{SensorType, temperature, battery}
use powerguru.Onewire.Device.{Sensor}
use powerguru.Database.Format.{format_temperature, format_battery}
use powerguru.Database.Postgres.{Postgres, open_db, query_insert}
use powerguru.Database.Postgres
use powerguru.Ownet.{OwServer, Ownet, unconnected, with_port, get_temperature, get_battery}
use powerguru.Ownet
use powerguru.Ownet.Attempts.{new-attempts}
use powerguru.Daemon.Sensors.{by_key}

-- The query and its table, where the sensor is stored at all.
unfoldable pub reading_by :
    SensorType → OwServer → Ownet → Text → Text → Result (Option (Text × Text))
unfolding get_temperature get_battery format_temperature format_battery
reading_by temperature server ownet stamp key = elim (get_temperature server ownet key) [
  | done temp ↦ elim temp [
    | some t ↦ done (some (format_temperature stamp t, codes "temperature"))
    | none ↦ done none
  ]
  | throws e ↦ throws e
  | null_pointer ↦ null_pointer
]
reading_by battery server ownet stamp key = elim (get_battery server ownet key) [
  | done batt ↦ elim batt [
    | some b ↦ done (some (format_battery stamp b, codes "battery"))
    | none ↦ done none
  ]
  | throws e ↦ throws e
  | null_pointer ↦ null_pointer
]
reading_by _ server ownet stamp key = done none

module _ (servers : ℕ → OwServer) (clock : ℕ → Text) (ownet : Ownet) where
  -- The `for` loop: how it ends, and the database.
  unfoldable pub poll_sensors : ℕ → List (Text × Sensor) → Postgres → Result (Unit {0}) × Postgres
  unfolding reading_by query_insert
  poll_sensors round [] pdb = (done tt, pdb)
  poll_sensors round ((key, sensor) ∷ sensors) pdb =
      elim (reading_by sensor.type (servers round) ownet (clock (length pdb.executed)) key) [
        | done row ↦ elim row [
          | some r ↦ poll_sensors round sensors (query_insert r.0 r.1 pdb).1
          | none ↦ poll_sensors round sensors pdb
        ]
        | throws e ↦ (throws e, pdb)
        | null_pointer ↦ (null_pointer, pdb)
      ]

  -- `rounds` rounds of the `while` loop, the first with the number `round`.
  unfoldable pub poll_rounds : ℕ → ℕ → Postgres → Result (Unit {0}) × Postgres
  unfolding by_key
  poll_rounds zero round pdb = (done tt, pdb)
  poll_rounds (suc rounds) round pdb =
      let (ending, pdb1) = poll_sensors round (by_key ownet.sensors) pdb in
      elim ending [
        | done _ ↦ poll_rounds rounds (suc round) pdb1
        | throws e ↦ (throws e, pdb1)
        | null_pointer ↦ (null_pointer, pdb1)
      ]

  -- `ownet_handler`, for as many rounds; without a sleep the loop has none.
  unfoldable pub ownet_handler : ℕ → Result (Unit {0}) × Postgres
  unfolding open_db
  ownet_handler rounds =
      let polled = poll_rounds rounds 0 (open_db Postgres.new).1 in
      if ownet.owserver
      then (if ltb 0 ownet.poll_sleep then polled else (done tt, Postgres.new))
      else (done tt, Postgres.new)

abbrev connected : Ownet
connected = record unconnected { owserver = true }

-- Rounds without a sensor leave the database as it is.
idle :
    (servers : ℕ → OwServer) (clock : ℕ → Text) (rounds round : ℕ) (pdb : Postgres)
    → poll_rounds servers clock connected rounds round pdb ≡ (done tt, pdb)
unfolding poll_rounds poll_sensors by_key
idle servers clock zero round pdb = refl
idle servers clock (suc rounds) round pdb = idle servers clock rounds (suc round) pdb

-- After a server that answers in the third attempt only, the thread runs for any number of rounds and
-- stores nothing, whatever the server answers by then.
pub ownet_handler-third_attempt :
    (server : OwServer) (host : Text) (servers : ℕ → OwServer) (clock : ℕ → Text) (rounds : ℕ)
    → server.init (with_port host) 0 ≡ false
    → server.init (with_port host) 1 ≡ false
    → server.init (with_port host) 2 ≡ true
    → (ownet : Ownet) × (Ownet.new server host ≡ done ownet)
      × (ownet.owserver ≡ true)
      × (ownet_handler servers clock ownet rounds ≡ (done tt, Postgres.new))
unfolding ownet_handler open_db
ownet_handler-third_attempt server host servers clock rounds first second third = (
  connected,
  new-attempts server host ∙ rw (first, second, third) refl,
  refl,
  idle servers clock rounds 0 Postgres.new,
)

-- ===== src/Daemon/Stored.antt =====
-- What `onewire_handler` stores, and what ends it.
use powerguru.Prelude.{
  ℕ, zero, suc, ◌+◌, ◌≡◌, refl, sym, ap, ◌∙◌, true, List, [], ◌∷◌, ◌++◌, append_assoc, append-nil,
  none, some, Text, codes, length, length-append, arith, ◌⊎◌, inl, inr, ltb,
}
use powerguru.Std.Convert.{done, throws, out_of_range}
use powerguru.Onewire.Families.{temperature}
use powerguru.Onewire.Device.{FileSystem, Onewire, Sensor, find_sensor, get_value, filespec}
use powerguru.Onewire.Reading.{sensor_id, bus_value, bus_temperature, get_temperature}
use powerguru.Database.Postgres.{Postgres, new, open_db, insert_command, query_insert}
use powerguru.Daemon.Rows.{Row, command_of, Shows, reading_by-none, reading_by-row}
use powerguru.Daemon.Sensors.{
  reading_by, reading_of, by_key, poll_sensors, poll_rounds, onewire_handler,
}

module _ (files : ℕ → FileSystem) (clock : ℕ → Text) (onewire : Onewire) where
  -- The commands that store the sensors in a round, when `n` commands were given before: none for a
  -- sensor without a row, and one for the row of each other, with the time that the clock shows then.
  unfoldable pub Stores : ℕ → ℕ → List (Text × Sensor) → List Text → Type 0
  Stores round n [] commands = commands ≡ []
  Stores round n ((key, sensor) ∷ sensors) commands =
      (Shows sensor.type none (files round) onewire key × Stores round n sensors commands)
      ⊎ ((row : Row) × (rest : List Text) × Shows sensor.type (some row) (files round) onewire key
          × (commands ≡ command_of (clock n) row ∷ rest)
          × Stores round (suc n) sensors rest)

  -- No sensor of the list ends the thread in a round.
  unfoldable pub Readable : ℕ → List (Text × Sensor) → Type 0
  Readable round [] = Unit
  Readable round ((key, sensor) ∷ sensors) =
      (Shows sensor.type none (files round) onewire key
        ⊎ ((row : Row) × Shows sensor.type (some row) (files round) onewire key))
      × Readable round sensors

  done_row :
      (round : ℕ) (key : Text) (sensor : Sensor) (sensors : List (Text × Sensor)) (pdb : Postgres)
      (query table : Text)
      → reading_of (files round) onewire (clock (length pdb.executed)) sensor key
        ≡ done (some (query, table))
      → poll_sensors files clock onewire round ((key, sensor) ∷ sensors) pdb
        ≡ poll_sensors files clock onewire round sensors (query_insert query table pdb).1
  unfolding poll_sensors
  done_row round key sensor sensors pdb query table e = rw (e, poll_sensors) refl

  no_row :
      (round : ℕ) (key : Text) (sensor : Sensor) (sensors : List (Text × Sensor)) (pdb : Postgres)
      → reading_of (files round) onewire (clock (length pdb.executed)) sensor key ≡ done none
      → poll_sensors files clock onewire round ((key, sensor) ∷ sensors) pdb
        ≡ poll_sensors files clock onewire round sensors pdb
  unfolding poll_sensors
  no_row round key sensor sensors pdb e = rw (e, poll_sensors) refl

  query_insert-executed :
      (query table : Text) (pdb : Postgres)
      → ((query_insert query table pdb).1.executed
          ≡ pdb.executed ++ insert_command query table ∷ [])
        × (length (query_insert query table pdb).1.executed ≡ suc (length pdb.executed))
  unfolding query_insert
  query_insert-executed query table pdb =
      (refl, omega (arith, length-append pdb.executed (insert_command query table ∷ [])))

  -- The readable sensors at the front are stored, whatever stands behind them.
  poll_sensors-front :
      (round : ℕ) (front back : List (Text × Sensor)) (pdb : Postgres)
      → Readable round front
      → (pdb' : Postgres) × (commands : List Text) × (poll_sensors files clock onewire round
            (front ++ back)
            pdb
          ≡ poll_sensors files clock onewire round back pdb')
        × (pdb'.executed ≡ pdb.executed ++ commands)
        × Stores round (length pdb.executed) front commands
  unfolding Readable Stores reading_of
  poll_sensors-front round [] back pdb h = (pdb, [], refl, sym (append-nil pdb.executed), refl)
  poll_sensors-front round ((key, sensor) ∷ front) back pdb h =
      let stamp = clock (length pdb.executed) in
      elim (h.0) [
        | inl shown ↦
            let e = reading_by-none sensor.type (files round) onewire stamp key shown in
            let (pdb', commands, run, added, stored) =
              poll_sensors-front round front back pdb (h.1) in
            (
              pdb',
              commands,
              no_row round key sensor (front ++ back) pdb e ∙ run,
              added,
              inl (shown, stored),
            )
        | inr (row, shown) ↦
            let (query, table, e, same) =
              reading_by-row sensor.type row (files round) onewire stamp key shown in
            let pdb1 = (query_insert query table pdb).1 in
            let (new_one, longer) = query_insert-executed query table pdb in
            let (pdb', commands, run, added, stored) =
              poll_sensors-front round front back pdb1 (h.1) in
            (
              pdb',
              insert_command query table ∷ commands,
              done_row round key sensor (front ++ back) pdb query table e ∙ run,
              added
                  ∙ ap (λ cs. cs ++ commands) new_one
                  ∙ append_assoc pdb.executed (insert_command query table ∷ []) commands,
              inr (row, commands, shown, ap (λ c. c ∷ commands) same, rw longer at stored),
            )
      ]

  -- The commands of several rounds, the first with the number `round`.
  unfoldable pub StoresRounds : ℕ → ℕ → ℕ → List Text → Type 0
  StoresRounds zero round n commands = commands ≡ []
  StoresRounds (suc rounds) round n commands =
      (front : List Text) × (back : List Text) × (commands ≡ front ++ back)
      × Stores round n (by_key onewire.sensors) front
      × StoresRounds rounds (suc round) (n + length front) back

  last_round :
      (rounds round : ℕ) (pdb pdb1 : Postgres)
      → poll_sensors files clock onewire round (by_key onewire.sensors) pdb
        ≡ (throws out_of_range, pdb1)
      → poll_rounds files clock onewire (suc rounds) round pdb ≡ (throws out_of_range, pdb1)
  unfolding poll_rounds
  last_round rounds round pdb pdb1 e = rw (e, poll_rounds) (ap (λ r. (throws out_of_range, r.1)) e)

  handler_lem :
      (rounds : ℕ)
      → onewire.mounted ≡ true
      → ltb 0 onewire.poll_sleep ≡ true
      → onewire_handler files clock onewire rounds ≡ poll_rounds files clock onewire rounds 0 new
  unfolding onewire_handler open_db
  handler_lem rounds m s = rw (m, s) refl

  no_text :
      (key id : Text) (round : ℕ)
      → onewire.mounted ≡ true
      → (files round).file (filespec onewire key (codes "w1_slave")) ≡ none
      → bus_temperature (files round) onewire key id ≡ throws out_of_range
  unfolding bus_temperature get_value bus_value
  no_text key id round m e = rw (m, e) refl

  no_temperature :
      (key id : Text) (round : ℕ) (sensor : Sensor)
      → find_sensor onewire.sensors key ≡ some sensor
      → sensor.bus ≡ true
      → sensor_id sensor.id ≡ done id
      → bus_temperature (files round) onewire key id ≡ throws out_of_range
      → get_temperature (files round) onewire key ≡ throws out_of_range
  unfolding get_temperature
  no_temperature key id round sensor f b i e = rw (f, get_temperature) (rw i (rw b e))

  no_reading :
      (key : Text) (round : ℕ) (stamp : Text) (sensor : Sensor)
      → sensor.type ≡ temperature
      → get_temperature (files round) onewire key ≡ throws out_of_range
      → reading_of (files round) onewire stamp sensor key ≡ throws out_of_range
  unfolding reading_of reading_by
  no_reading key round stamp sensor t e =
      ap (λ type. reading_by type (files round) onewire stamp key) t ∙ rw (e, reading_by) refl

  failed_row :
      (round : ℕ) (key : Text) (sensor : Sensor) (sensors : List (Text × Sensor)) (pdb : Postgres)
      → reading_of (files round) onewire (clock (length pdb.executed)) sensor key
        ≡ throws out_of_range
      → poll_sensors files clock onewire round ((key, sensor) ∷ sensors) pdb
        ≡ (throws out_of_range, pdb)
  unfolding poll_sensors
  failed_row round key sensor sensors pdb e = rw (e, poll_sensors) refl

  -- A temperature sensor of the kernel whose file cannot be opened in the first round ends the thread
  -- by an exception, however many rounds it is to do: the sensors in front of it are stored once,
  -- and none behind it.
  pub onewire_handler-missing_file :
      (rounds : ℕ) (front back : List (Text × Sensor)) (key id : Text) (sensor : Sensor)
      → onewire.mounted ≡ true
      → ltb 0 onewire.poll_sleep ≡ true
      → by_key onewire.sensors ≡ front ++ (key, sensor) ∷ back
      → Readable 0 front
      → find_sensor onewire.sensors key ≡ some sensor
      → sensor.type ≡ temperature
      → sensor.bus ≡ true
      → sensor_id sensor.id ≡ done id
      → (files 0).file (filespec onewire key (codes "w1_slave")) ≡ none
      → (pdb : Postgres) × (onewire_handler files clock onewire (suc rounds)
          ≡ (throws out_of_range, pdb))
        × Stores 0 0 front pdb.executed
  unfolding new
  onewire_handler-missing_file rounds front back key id sensor m s order h f t b i e =
      let (pdb, commands, run, added, stored) =
        poll_sensors-front 0 front ((key, sensor) ∷ back) new h in
      let failed =
        no_reading key 0 (clock (length pdb.executed)) sensor t
          (no_temperature key id 0 sensor f b i (no_text key id 0 m e)) in
      let round =
        ap (λ ss. poll_sensors files clock onewire 0 ss new) order
        ∙ run
        ∙ failed_row 0 key sensor back pdb failed in
      (pdb, handler_lem (suc rounds) m s ∙ last_round rounds 0 new pdb round, rw added stored)

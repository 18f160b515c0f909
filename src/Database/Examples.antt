-- ===== src/Database/Examples.antt =====
-- A MariaDB server that loses the connection at the first query.
use powerguru.Prelude.{ℕ, ◌≡◌, ◌==◌, true, false, [], ◌∷◌, ◌++◌, Text, codes, if◌then◌else◌}
use powerguru.Prelude.Int.{pos}
use powerguru.Database.{MeterData, sw_xantrex}
use powerguru.Database.Maria.{
  Maria, server_lost, other, Server, new, mysql_real_query, query_insert,
}
use powerguru.Database.Inserts.{connection, query_insert-tries}

abbrev server : Server
server = record {
  accepts = λ n. true;
  answer = λ n. if n == 0 then server_lost else other;
  clock = λ n. record {
    year = pos 119;
    mon = pos 0;
    mday = pos 4;
    hour = pos 8;
    min = pos 34;
    sec = pos 5;
  };
}

abbrev database : Maria
database = new false

query_insert-tries_example :
    (db' : Maria) × (query_insert server (codes "SELECT 1") database ≡ (true, db'))
    × (db'.calls
        ≡ []
          ++ mysql_real_query (codes "SELECT 1") ∷ connection database
          ++ mysql_real_query (codes "SELECT 1") ∷ [])
    × (connection db' ≡ connection database)
unfolding new
query_insert-tries_example = query_insert-tries server (codes "SELECT 1") database

-- A print without commas.
abbrev print : ℕ → Text
print tenths = codes "25.1"

abbrev meters : MeterData ℕ
meters = record {
  unit = pos 1;
  type = sw_xantrex;
  charge_amps = pos 3;
  ac_load_amps = pos 7;
  battery_volts = 251;
  ac_volts_out = 251;
  ac1_volts_in = 251;
  ac2_volts_in = 251;
  pv_amps_in = pos 0;
  pv_volts_in = 251;
  buy_amps = 251;
  sell_amps = 251;
  daily_kwh = 251;
  hertz = pos 60;
  tempcomp_volts = 251;
}

-- ===== src/Database/Maria.antt =====
-- lib/mariadb.cc: the connection to a MariaDB server and what is sent to it. What the server answers
-- and what the clock shows are arguments: functions of the number of calls before.
use powerguru.Prelude.{
  ℕ, zero, suc, Bool, true, false, Option, none, some, List, [], ◌∷◌, ◌++◌, Text, codes, length,
}
use powerguru.Prelude.Int.{ℤ, pos, ◌+ℤ◌}
use powerguru.Std.Str.{body}
use powerguru.Std.Number.{print_int}
use powerguru.Outback.Loop.{c_string}
use powerguru.Database.{MeterData}

-- The calls of the client library: `mysql_init`, `mysql_real_connect` with host, user, password and
-- database, `mysql_close` and `mysql_real_query`.
pub data Call : Type 0 where
  mysql_init mysql_close : Call
  mysql_real_connect : Text → Text → Text → Text → Call
  mysql_real_query : Text → Call

-- `Database`; `connected` is whether `_connection` is not null.
pub record Maria : Type 0 where
  pub tblname : Text
  pub dbname : Text
  pub dbuser : Text
  pub dbpasswd : Text
  pub dbhost : Text
  pub connected : Bool
  pub calls : List Call

-- The results of `mysql_real_query` that the code tells apart.
pub data Answer : Type 0 where
  server_lost commands_out_of_sync server_gone_error minus_one unknown_error other : Answer

-- The switch on it: the connection was lost, or the query has a result.
abbrev pub outcome : Answer → Option Bool
outcome server_lost = none
outcome commands_out_of_sync = none
outcome server_gone_error = none
outcome minus_one = some false
outcome unknown_error = some false
outcome other = some true

-- The members of `struct tm`.
pub record Tm : Type 0 where
  pub year : ℤ
  pub mon : ℤ
  pub mday : ℤ
  pub hour : ℤ
  pub min : ℤ
  pub sec : ℤ

pub record Server : Type 0 where
  pub accepts : ℕ → Bool
  pub answer : ℕ → Answer
  pub clock : ℕ → Tm

-- The constructor does not set `_connection`.
unfoldable pub new : Bool → Maria
new memory = record {
  tblname = codes "powerguru";
  dbname = codes "powerguru";
  dbuser = codes "powerguru";
  dbpasswd = codes "powerguru";
  dbhost = codes "localhost";
  connected = memory;
  calls = [];
}

unfoldable pub db_user_set : Text → Maria → Maria
db_user_set user db = record db { dbuser = user }

unfoldable pub db_passwd_set : Text → Maria → Maria
db_passwd_set passwd db = record db { dbpasswd = passwd }

unfoldable pub db_name_set : Text → Maria → Maria
db_name_set name db = record db { dbname = name }

unfoldable pub db_host_set : Text → Maria → Maria
db_host_set host db = record db { dbhost = host }

unfoldable pub call : Call → Maria → Maria
call c db = record db { calls = db.calls ++ c ∷ [] }

unfoldable pub close_db : Maria → Bool × Maria
unfolding call
close_db db = (true, call mysql_close db)

-- What is inserted for a record: the type is "MX" for each device.
unfoldable pub stamp_pieces : Tm → List Text
stamp_pieces now =
    codes "'"
    ∷ print_int (now.year +ℤ pos 1900)
    ∷ codes "-"
    ∷ print_int (now.mon +ℤ pos 1)
    ∷ codes "-"
    ∷ print_int now.mday
    ∷ codes " "
    ∷ print_int now.hour
    ∷ codes ":"
    ∷ print_int now.min
    ∷ codes ":"
    ∷ print_int now.sec
    ∷ codes "',"
    ∷ []

module _ {Float : Type 0} (print : Float → Text) where
  unfoldable pub insert_text : Tm → MeterData Float → Text
  unfolding stamp_pieces
  insert_text now d =
      body (
        codes "INSERT INTO meters () VALUES ("
        ∷ print_int d.unit
        ∷ codes ","
        ∷ codes "'"
        ∷ codes "MX"
        ∷ codes "',"
        ∷ [])
      ++ body (stamp_pieces now)
      ++ body (
          print_int d.charge_amps
          ∷ codes ","
          ∷ print_int d.ac_load_amps
          ∷ codes ","
          ∷ print d.battery_volts
          ∷ codes ","
          ∷ print d.ac_volts_out
          ∷ codes ","
          ∷ print d.ac1_volts_in
          ∷ codes ","
          ∷ print d.ac2_volts_in
          ∷ codes ","
          ∷ print_int d.pv_amps_in
          ∷ codes ","
          ∷ print d.pv_volts_in
          ∷ codes ","
          ∷ print d.buy_amps
          ∷ codes ","
          ∷ print d.sell_amps
          ∷ codes ","
          ∷ print d.daily_kwh
          ∷ codes ","
          ∷ print_int d.hertz
          ∷ codes ","
          ∷ print d.tempcomp_volts
          ∷ codes ")"
          ∷ (0 ∷ [])
          ∷ [])

module _ (server : Server) where
  unfoldable pub open_db : Maria → Bool × Maria
  unfolding call
  open_db db =
      let db1 = call mysql_init db in
      let accepted = server.accepts (length db1.calls) in
      (
        accepted,
        record (call (mysql_real_connect db.dbhost db.dbuser db.dbpasswd db.dbname) db1) {
          connected = accepted;
        },
      )

  -- `while (retries--)` of `queryInsert (query)`.
  unfoldable pub reconnect : Maria → Maria
  unfolding open_db close_db
  reconnect db = (open_db (close_db db).1).1

  unfoldable pub query_loop : ℕ → Text → Maria → Bool × Maria
  unfolding call reconnect
  query_loop zero query db = (false, db)
  query_loop (suc retries) query db =
      let db1 = call (mysql_real_query query) db in
      let again = query_loop retries query (reconnect db1) in
      elim (outcome (server.answer (length db.calls))) [
        | none ↦ again
        | some result ↦ (result, db1)
      ]

  unfoldable pub query_insert : Text → Maria → Bool × Maria
  unfolding query_loop
  query_insert query db = query_loop 2 query db

  module _ {Float : Type 0} (print : Float → Text) where
    -- `queryInsert (data)` for one record: what the query returns is dropped.
    unfoldable pub query_insert_meter : MeterData Float → Maria → Bool × Maria
    unfolding insert_text c_string query_insert
    query_insert_meter d db =
        let text = c_string (insert_text print (server.clock (length db.calls)) d) in
        (true, (query_insert text db).1)

    unfoldable pub insert_all : List (MeterData Float) → Maria → Maria
    insert_all [] db = db
    insert_all (d ∷ data_list) db = insert_all data_list (query_insert_meter d db).1

    -- `queryInsert (data)` for a list.
    unfoldable pub query_insert_list : List (MeterData Float) → Maria → Bool × Maria
    query_insert_list [] db = (false, db)
    query_insert_list (d ∷ data_list) db = (true, insert_all (d ∷ data_list) db)

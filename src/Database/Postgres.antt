-- ===== src/Database/Postgres.antt =====
-- lib/postgresql.cc, with the class of lib/database.h: the connection to a PostgreSQL server.
use powerguru.Prelude.{Bool, true, false, List, [], ◌∷◌, ◌++◌, Text, codes}

-- `Database`, whether the last connection was made, and the commands that were given to `PQexec`, which
-- sends none without a connection.
pub record Postgres : Type 0 where
  pub tblname : Text
  pub dbname : Text
  pub dbuser : Text
  pub dbpasswd : Text
  pub dbhost : Text
  pub executed : List Text

unfoldable pub new : Postgres
new = record {
  tblname = codes "powerguru";
  dbname = codes "powerguru";
  dbuser = codes "powerguru";
  dbpasswd = codes "powerguru";
  dbhost = codes "localhost";
  executed = [];
}

unfoldable pub db_user_set : Text → Postgres → Postgres
db_user_set user db = record db { dbuser = user }

unfoldable pub db_passwd_set : Text → Postgres → Postgres
db_passwd_set passwd db = record db { dbpasswd = passwd }

unfoldable pub db_name_set : Text → Postgres → Postgres
db_name_set name db = record db { dbname = name }

unfoldable pub db_host_set : Text → Postgres → Postgres
db_host_set host db = record db { dbhost = host }

-- `openDB`: a connection that fails is only logged; none of the members is used.
unfoldable pub open_db : Postgres → Bool × Postgres
open_db db = (true, db)

unfoldable pub close_db : Postgres → Bool × Postgres
close_db db = (true, db)

-- `queryInsert (query, db)`, whatever the server answers.
unfoldable pub insert_command : Text → Text → Text
insert_command query table =
    (codes "INSERT INTO " ++ table ++ codes "  VALUES(") ++ query ++ codes ");"

unfoldable pub query_insert : Text → Text → Postgres → Bool × Postgres
unfolding insert_command
query_insert query table db =
    (false, record db { executed = db.executed ++ insert_command query table ∷ [] })

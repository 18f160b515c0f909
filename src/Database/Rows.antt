-- ===== src/Database/Rows.antt =====
-- What `Database::queryInsert` sends for a list of records.
use powerguru.Prelude.{◌+◌, ◌≡◌, List, [], ◌∷◌, ◌++◌, Text, length, ℕ}
use powerguru.Std.Number.{print_int}
use powerguru.Database.{MeterData}
use powerguru.Database.Maria.{Call, mysql_real_query, Maria, Server}
use powerguru.Database.Columns.{Inserts, columns}

module _ (server : Server) {Float : Type 0} (print : Float → Text) where
  -- The calls for one record, when `n` calls were made before: first the command that inserts its row,
  -- with the time that the clock shows then.
  pub record Sent (n : ℕ) (d : MeterData Float) (calls : List Call) : Type 0 where
    pub text : Text
    pub rest : List Call
    pub first : calls ≡ mysql_real_query text ∷ rest
    pub row : Inserts text (print_int d.unit ∷ columns print (server.clock n) d)

  -- The calls for the records, one after the other.
  pub AllSent : ℕ → List (MeterData Float) → List Call → Type 0
  AllSent n [] calls = calls ≡ []
  AllSent n (d ∷ data_list) calls =
      (front : List Call) × (back : List Call) × (calls ≡ front ++ back)
      × Sent n d front
      × AllSent (n + length front) data_list back

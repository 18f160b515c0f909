-- ===== src/Outback/Loop.antt =====
-- `outback::main`: the console keys and the pages that the serial port delivers.
pub mod Framing
pub mod Reports
use powerguru.Prelude.{
  ℕ, suc, Bool, true, false, List, [], ◌∷◌, ◌++◌, Text, length, if◌then◌else◌, ◌==◌, ◌||◌, ltb,
}
use powerguru.Prelude.Int.{ℤ, pos, negsuc}
use powerguru.Database.{MeterData}
use powerguru.Serial.{Round, Reading, read}
use powerguru.Outback.Device.{Outback, RetCode, Run, done, ◌>>=◌}
use powerguru.Outback.Checksum.{calc_checksum}
use powerguru.Outback.Parse.{parse}
use powerguru.Outback.Export.{export_meter_data}

-- A text in a buffer of `char` ends at its first NUL.
unfoldable pub c_string : Text → Text
c_string [] = []
c_string (c ∷ s) = let rest = c_string s in if c == 0 then [] else c ∷ rest

unfoldable pub positive : ℤ → Bool
positive (pos n) = ltb 0 n
positive (negsuc n) = false

-- `outback::readSerial`.
unfoldable pub read_serial : Bool → (ℕ → Round) → Text
unfolding c_string positive
read_serial is_open kernel =
    let r = read is_open kernel [] in if positive r.count then c_string r.buf else []

-- The device, the DTR line and what `queryInsert` was given, the oldest first.
pub record Loop : Type 0 where
  pub device : Outback
  pub dtr : Bool
  pub inserted : List (MeterData ℤ)

-- What `Getc` returns that the loop tells apart: nothing, a key, or a key that ends it.
pub data Key : Type 0 where
  no_key dtr_off dtr_on other_key quit : Key

-- The switch on the key; `none` of the keys but `quit` leaves the loop.
unfoldable pub press : Key → Loop → Loop
press dtr_off s = record s { dtr = false }
press dtr_on s = record s { dtr = true }
press _ s = s

-- `if (str.size () > 0)`: the result of `calcChecksum` is dropped, and what `parse` returns too.
-- The record that is filled in, `blank`, is not initialised.
unfoldable pub page_step : MeterData ℤ → Loop → Text → Run Loop
page_step blank s [] = done s
page_step blank s (c ∷ str) = do
  _ ← calc_checksum (c ∷ str)
  parsed ← parse s.device (c ∷ str)
  done (record s {
    device = parsed.0;
    inserted = s.inserted ++ export_meter_data parsed.0 blank ∷ [];
  })

-- `ch` as the loop tells it apart; nothing was typed if it is not positive.
unfoldable pub key_of : ℤ → Key
key_of (negsuc n) = no_key
key_of (pos n) =
    if n == 0
    then no_key
    else if n == b'q' || n == b'Q'
    then quit
    else if n == b'd'
    then dtr_off
    else if n == b'D'
    then dtr_on
    else other_key

unfoldable pub is_quit : Key → Bool
is_quit quit = true
is_quit _ = false

-- The loop over the keys, with what the kernel answers to the reads behind them.
unfoldable pub main : Bool → MeterData ℤ → Loop → List (ℤ × (ℕ → Round)) → Run Loop
unfolding press key_of is_quit read_serial
main is_open blank s [] = done s
main is_open blank s ((ch, kernel) ∷ rest) =
    let more = page_step blank (press (key_of ch) s) (read_serial is_open kernel) >>= λ s'.
    main is_open blank s' rest in
    if is_quit (key_of ch) then done s else more

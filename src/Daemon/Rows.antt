-- ===== src/Daemon/Rows.antt =====
-- The rows of the 1 wire sensors that `onewire_handler` stores.
use powerguru.Prelude.{
  ◌≡◌, refl, ◌∷◌, ◌++◌, append_assoc, Option, none, some, Text, codes, if◌then◌else◌, Bool-cases,
  inl, inr,
}
use powerguru.Std.Convert.{done}
use powerguru.Onewire.Families.{SensorType, temperature, battery}
use powerguru.Onewire.Device.{FileSystem, Onewire}
use powerguru.Onewire.Reading.{Temperature, Battery, get_temperature, get_battery}
use powerguru.Database.Format.{to_string, format_temperature, format_battery}
use powerguru.Database.Postgres.{insert_command}
use powerguru.Daemon.Sensors.{reading_by}

-- What the thread stores of a sensor.
pub data Row : Type 0 where
  weather : Temperature → Row
  power : Battery → Row

-- The columns of a row, and the command that stores it.
abbrev values_of : Text → Row → Text
values_of stamp (weather t) =
    codes "'"
    ++ t.id
    ++ codes "', "
    ++ to_string t.temp
    ++ codes ", "
    ++ to_string t.hightemp
    ++ codes ", "
    ++ to_string t.lowtemp
    ++ codes ", '"
    ++ (t.scale ∷ codes "', '")
    ++ stamp
    ++ codes "'"
values_of stamp (power b) =
    codes "'"
    ++ b.id
    ++ codes "', "
    ++ to_string b.current
    ++ codes ", "
    ++ to_string b.volts
    ++ codes ", '"
    ++ (if b.dc then codes "DC'" else codes "AC'")
    ++ codes ", '"
    ++ stamp
    ++ codes "'"

abbrev pub command_of : Text → Row → Text
command_of stamp (weather t) =
    codes "INSERT INTO weather  VALUES(" ++ values_of stamp (weather t) ++ codes ");"
command_of stamp (power b) =
    codes "INSERT INTO battery  VALUES(" ++ values_of stamp (power b) ++ codes ");"

-- The row of a sensor of a type, or none: temperatures have one, batteries that can be read have one,
-- and no other sensor has.
abbrev pub Shows : SensorType → Option Row → FileSystem → Onewire → Text → Type 0
Shows temperature (some (weather t)) files onewire key = get_temperature files onewire key ≡ done t
Shows temperature _ files onewire key = ⊥
Shows battery (some (power b)) files onewire key = get_battery files onewire key ≡ done (some b)
Shows battery none files onewire key = get_battery files onewire key ≡ done none
Shows battery _ files onewire key = ⊥
Shows _ none files onewire key = Unit
Shows _ _ files onewire key = ⊥

pub reading_by-none :
    (type : SensorType) (files : FileSystem) (onewire : Onewire) (stamp key : Text)
    → Shows type none files onewire key
    → reading_by type files onewire stamp key ≡ done none
unfolding reading_by
reading_by-none temperature files onewire stamp key h = elim h [ ]
reading_by-none battery files onewire stamp key h = rw (h, reading_by) refl
reading_by-none _ files onewire stamp key h = refl

insert_temperature :
    (stamp : Text) (t : Temperature)
    → insert_command (format_temperature stamp t) (codes "weather") ≡ command_of stamp (weather t)
unfolding insert_command format_temperature
insert_temperature stamp t = simp append_assoc refl

insert_battery :
    (stamp : Text) (b : Battery)
    → insert_command (format_battery stamp b) (codes "battery") ≡ command_of stamp (power b)
unfolding insert_command format_battery
insert_battery stamp b = elim (Bool-cases b.dc) [
  | inl e ↦ rw e (simp append_assoc refl)
  | inr e ↦ rw e (simp append_assoc refl)
]

pub reading_by-row :
    (type : SensorType) (row : Row) (files : FileSystem) (onewire : Onewire) (stamp key : Text)
    → Shows type (some row) files onewire key
    → (query : Text) × (table : Text) × (reading_by type files onewire stamp key
        ≡ done (some (query, table)))
      × (insert_command query table ≡ command_of stamp row)
unfolding reading_by
reading_by-row temperature (weather t) files onewire stamp key h = (
  format_temperature stamp t,
  codes "weather",
  rw (h, reading_by) refl,
  insert_temperature stamp t,
)
reading_by-row battery (power b) files onewire stamp key h =
    (format_battery stamp b, codes "battery", rw (h, reading_by) refl, insert_battery stamp b)
reading_by-row _ _ files onewire stamp key h = elim h [ ]

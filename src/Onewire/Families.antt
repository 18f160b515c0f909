-- ===== src/Onewire/Families.antt =====
-- devices/onewire.cc and .h: the table of the families of 1 wire sensors.
use powerguru.Prelude.{List, [], ◌∷◌, Text, codes, if◌then◌else◌}
use powerguru.Std.Str.{eq_text}

-- `family_e`.
pub data SensorType : Type 0 where
  ac_voltage dc_voltage auth battery clock temperature thermcouple moisture unsupported : SensorType

-- `family_t`.
pub record Family : Type 0 where
  pub description : Text
  pub chips : Text
  pub type : SensorType

abbrev row : Text → Text → Text → SensorType → Text × Family
row code description chips type =
    (code, record { description = description; chips = chips; type = type })

-- The table of `initTable`; no code stands twice in it.
abbrev pub family_table : List (Text × Family)
family_table =
    row (codes "A2") (codes "AC Voltage") (codes "mCM001") ac_voltage
    ∷ row (codes "82") (codes "Authorization") (codes "DS1425") auth
    ∷ row (codes "30") (codes "Battery") (codes "DS2760") battery
    ∷ row (codes "32") (codes "Battery") (codes "DS2780") battery
    ∷ row (codes "35") (codes "Battery") (codes "DS2755") battery
    ∷ row (codes "2E") (codes "Battery") (codes "DS2770") battery
    ∷ row (codes "3D") (codes "Battery") (codes "DS2781") battery
    ∷ row (codes "31") (codes "Battery ID") (codes "DS2720") battery
    ∷ row (codes "26") (codes "Battery monitor") (codes "DS2438") battery
    ∷ row (codes "51") (codes "Battery monitor") (codes "DS2751") battery
    ∷ row (codes "1B") (codes "Battery monitor") (codes "DS2436") battery
    ∷ row (codes "1E") (codes "Battery monitor") (codes "DS2437") battery
    ∷ row (codes "24") (codes "Clock") (codes "DS2415") clock
    ∷ row (codes "27") (codes "Clock + interrupt") (codes "DS2417") clock
    ∷ row (codes "36") (codes "Coulomb counter") (codes "DS2740") unsupported
    ∷ row (codes "1D") (codes "Counter") (codes "DS2423") unsupported
    ∷ row (codes "16") (codes "crypto-ibutton") (codes "DS1954 DS1957") unsupported
    ∷ row (codes "B2") (codes "DC Current or Voltage") (codes "mAM001") battery
    ∷ row (codes "04") (codes "EconoRam Time chi") (codes "DS2404") unsupported
    ∷ row (codes "7E") (codes "Envoronmental Monitors") (codes "EDS00xx") unsupported
    ∷ row (codes "41") (codes "Hygrocron") (codes "DS1923") unsupported
    ∷ row (codes "81") (codes "ID found in DS2490R and DS2490B USB adapters") (codes "USB id")
        unsupported
    ∷ row (codes "01") (codes "ID-only") (codes "DS2401 DS2411 DS1990R DS2490A") unsupported
    ∷ row (codes "A6") (codes "IR Temperature") (codes "mTS017") unsupported
    ∷ row (codes "06") (codes "Memory") (codes "DS1993") unsupported
    ∷ row (codes "08") (codes "Memory") (codes "DS1992") unsupported
    ∷ row (codes "09") (codes "Memory") (codes "DS2502 DS2703 DS2704") unsupported
    ∷ row (codes "14") (codes "Memory") (codes "DS2430A") unsupported
    ∷ row (codes "23") (codes "Memory") (codes "DS2433 DS1973") unsupported
    ∷ row (codes "43") (codes "Memory") (codes "DS28EC20") unsupported
    ∷ row (codes "0B") (codes "Memory") (codes "DS2505") unsupported
    ∷ row (codes "0F") (codes "Memory") (codes "DS2506") unsupported
    ∷ row (codes "2D") (codes "Memory") (codes "DS2431 DS1972") unsupported
    ∷ row (codes "1F") (codes "Microhub") (codes "DS2409") unsupported
    ∷ row (codes "EF") (codes "Moisture meter.4 Channel Hub 1A") (codes "DS1963L Monetary iButton")
        unsupported
    ∷ row (codes "02") (codes "Multikey") (codes "DS1991") unsupported
    ∷ row (codes "37") (codes "password EEPROM") (codes "DS1977") unsupported
    ∷ row (codes "FC") (codes "Moisture Hub") (codes "BAE0910 BAE0911") unsupported
    ∷ row (codes "00") (codes "Provide location information") (codes "Link locator") unsupported
    ∷ row (codes "A0") (codes "Rotation Sensor") (codes "mRS001") unsupported
    ∷ row (codes "18") (codes "SHA iButton") (codes "DS1963S DS1962") unsupported
    ∷ row (codes "44") (codes "SHA-1 Authenticator") (codes "DS28E10") unsupported
    ∷ row (codes "34") (codes "SHA-1 Battery") (codes "DS2703") unsupported
    ∷ row (codes "33") (codes "SHA-1 ibutton") (codes "DS1961s DS2432") unsupported
    ∷ row (codes "FF") (codes "Swart LCD") (codes "LCD") unsupported
    ∷ row (codes "05") (codes "Switch") (codes "Ds2405") unsupported
    ∷ row (codes "12") (codes "Switch") (codes "DS2406") unsupported
    ∷ row (codes "29") (codes "Switch") (codes "DS2408") unsupported
    ∷ row (codes "1C") (codes "Switch") (codes "DS28E04-100") unsupported
    ∷ row (codes "3A") (codes "Switch") (codes "DS2413") unsupported
    ∷ row (codes "10") (codes "Temperature") (codes "DS18S20") temperature
    ∷ row (codes "22") (codes "Temperature") (codes "DS1922") temperature
    ∷ row (codes "28") (codes "Temperature") (codes "DS18B20") temperature
    ∷ row (codes "3B") (codes "Temperature/memory") (codes "DS1825 X31826") unsupported
    ∷ row (codes "42") (codes "Temperature/IO") (codes "DS28EA00") unsupported
    ∷ row (codes "B1") (codes "Thermocouple Converter") (codes "mTC001") unsupported
    ∷ row (codes "B3") (codes "Thermocouple Converter") (codes "mTC002") unsupported
    ∷ row (codes "21") (codes "Thermocron") (codes "DS1921") unsupported
    ∷ row (codes "EE") (codes "Ultra Violet Index") (codes "UVI") unsupported
    ∷ row (codes "89") (codes "Uniqueware") (codes "DS1982U") unsupported
    ∷ row (codes "8B") (codes "Uniqueware") (codes "DS1985U") unsupported
    ∷ row (codes "8F") (codes "Uniqueware") (codes "DS1986U") unsupported
    ∷ row (codes "2C") (codes "Varible Resitor") (codes "DS2890") unsupported
    ∷ row (codes "A1") (codes "Vibratio") (codes "mVM001") unsupported
    ∷ row (codes "20") (codes "Voltage") (codes "DS2450") unsupported
    ∷ []

-- `_family[code]`: for a code that is not in the map, a row whose members are all zero is made.
unfoldable pub find_family : List (Text × Family) → Text → Family
unfolding eq_text
find_family [] code = record { description = []; chips = []; type = ac_voltage }
find_family ((key, family) ∷ table) code =
    let rest = find_family table code in if eq_text key code then family else rest

unfoldable pub type_of : Text → SensorType
unfolding find_family
type_of code = (find_family family_table code).type

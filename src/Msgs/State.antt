-- ===== src/Msgs/State.antt =====
-- `class Msgs`: its state, the cache of values and the kinds of messages; `class XMLNode`.
use powerguru.Prelude.{List, [], ◌∷◌, Option, Text, codes, if◌then◌else◌}
use powerguru.Std.Str.{eq_text}

pub data NetMode : Type 0 where
  nonet daemon client : NetMode

pub data XmlMeters : Type 0 where
  charge_amps ac_load_amps battery_volts ac_volts_out ac1_volts_in ac2_volts_in pv_amps_in
        pv_volts_in :
      XmlMeters
  buy_amps sell_amps daily_kwh hertz tempcomp_volts : XmlMeters

pub data XmlStatus : Type 0 where
  sysversion revision opmode errormode warningmode : XmlStatus

pub data XmlCommand : Type 0 where
  generator grid relay auxilary poll inverter charger : XmlCommand

pub data XmlConfig : Type 0 where
  genconfig gridconfig buy sell charge : XmlConfig

pub data XmlMsg : Type 0 where
  meter status command config heartbeat response : XmlMsg

-- `success` and `not_supported` of `boost::system`.
pub data ErrorCode : Type 0 where
  success not_supported : ErrorCode

-- A node of a parsed message: its name, its value, its attributes and children. The value is the pointer
-- that lib/msgs.cc compares by `strcmp`, which may be null, where `valueGet` of lib/xml.h has a text. An
-- element with children has none here; `extractNode` gives it the content of its first child.
mutual
  pub data XmlNode : Type 0 where
    node : Text → Option Text → List (Text × Text) → Children → XmlNode

  pub data Children : Type 0 where
    no_child : Children
    child : XmlNode → Children → Children

abbrev pub name_get : XmlNode → Text
name_get (node name value attributes children) = name

abbrev pub value_get : XmlNode → Option Text
value_get (node name value attributes children) = value

abbrev pub attributes_of : XmlNode → List (Text × Text)
attributes_of (node name value attributes children) = attributes

-- `version` is what `<<` prints of `_version`; `sent` what was given to `writeNet`, the oldest first.
pub record Msgs : Type 0 where
  pub version : Text
  pub net_mode : NetMode
  pub cache : List (Text × Text)
  pub thisip : Text
  pub thishost : Text
  pub remoteip : Text
  pub remotehost : Text
  pub sent : List Text

-- `_cache[name] = str`.
unfoldable pub put : List (Text × Text) → Text → Text → List (Text × Text)
unfolding eq_text
put [] name str = (name, str) ∷ []
put ((tag, old) ∷ cache) name str =
    let rest = put cache name str in
    if eq_text tag name then (tag, str) ∷ cache else (tag, old) ∷ rest

-- `cacheAdd`. The keys of the map are texts, as lib/msgs.h declares it; lib/msgs.cc defines it with
-- pointers.
unfoldable pub cache_add : Text → Text → Msgs → Msgs
unfolding put
cache_add name str m = record m { cache = put m.cache name str }

-- `cacheGet`: an empty text where there is no value.
unfoldable pub lookup : List (Text × Text) → Text → Text
unfolding eq_text
lookup [] name = []
lookup ((tag, str) ∷ cache) name =
    let rest = lookup cache name in if eq_text tag name then str else rest

unfoldable pub cache_get : Text → Msgs → Text
unfolding lookup
cache_get name m = lookup m.cache name

-- What `init ()` preloads if the mode is `DAEMON`, with the text of `VERSION`.
unfoldable pub preload : Text → Msgs → Msgs
unfolding put
preload version m = elim m.net_mode [
  | daemon ↦ record m {
    cache =
        put
          (put
            (put
              (put
                (put (put (put m.cache (codes "version") version) (codes "revision") version)
                  (codes "battery-volts") (codes "88888888"))
                (codes "charge-amps") (codes "777777777"))
              (codes "load-amps") (codes "66666666"))
            (codes "pv-amps") (codes "55555555"))
          (codes "sell-amps") (codes "444444444444");
  }
  | nonet ↦ m
  | client ↦ m
]

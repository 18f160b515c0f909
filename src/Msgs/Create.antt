-- ===== src/Msgs/Create.antt =====
-- The functions of `class Msgs` that format messages. Each ends with the NUL of `ends`.
use powerguru.Prelude.{[], ◌∷◌, Text, codes}
use powerguru.Prelude.Int.{ℤ}
pub use powerguru.Std.Str.{body}
use powerguru.Std.Number.{print_int}
use powerguru.Msgs.State.{
  Msgs, XmlMeters, charge_amps, ac_load_amps, battery_volts, ac_volts_out, ac1_volts_in,
  ac2_volts_in, pv_amps_in, pv_volts_in, buy_amps, sell_amps, daily_kwh, hertz, tempcomp_volts,
  XmlStatus, sysversion, revision, opmode, errormode, warningmode, XmlCommand, generator, grid,
  relay, auxilary, poll, inverter, charger, XmlConfig, genconfig, gridconfig, buy, sell, charge,
  XmlMsg, meter, status, command, config, heartbeat, response,
}

abbrev pub ends : Text
ends = 0 ∷ []

unfoldable pub status_create : Msgs → Text
status_create m = body (
    codes "<powerguru version=\""
    ∷ m.version
    ∷ codes "\">"
    ∷ codes "<status>"
    ∷ codes "</status>"
    ∷ codes "</powerguru>"
    ∷ ends
    ∷ [])

unfoldable pub helo_create : Msgs → Text
helo_create m = body (
    codes "<powerguru version=\""
    ∷ m.version
    ∷ codes "\">"
    ∷ codes "<client ip=\""
    ∷ m.remoteip
    ∷ codes "\">"
    ∷ m.remotehost
    ∷ codes "</client>"
    ∷ codes "<server ip=\""
    ∷ m.thisip
    ∷ codes "\">"
    ∷ m.thishost
    ∷ codes "</server>"
    ∷ codes "</powerguru>"
    ∷ ends
    ∷ [])

unfoldable pub meters_request_create : Msgs → Text → Text
meters_request_create m str = body (
    codes "<powerguru version=\""
    ∷ m.version
    ∷ codes "\">"
    ∷ codes "<meters>"
    ∷ str
    ∷ codes "</meters>"
    ∷ codes "</powerguru>"
    ∷ ends
    ∷ [])

-- The switch of `metersRequestCreate (xml_meters_e)`, which `requestCreate (xml_meters_e)` repeats.
unfoldable pub meter_tag : XmlMeters → Text
meter_tag charge_amps = codes "charge-amps"
meter_tag ac_load_amps = codes "load-amps"
meter_tag battery_volts = codes "battery-volts"
meter_tag ac_volts_out = codes "ac-volts-out"
meter_tag ac1_volts_in = codes "ac1-volts-in"
meter_tag ac2_volts_in = codes "ac2-volts-in"
meter_tag pv_amps_in = codes "pv-amps-in"
meter_tag pv_volts_in = codes "pv-volts-in"
meter_tag buy_amps = codes "buy-amps"
meter_tag sell_amps = codes "sell-amps"
meter_tag daily_kwh = codes "daily-kwh"
meter_tag hertz = codes "hertz"
meter_tag tempcomp_volts = codes "tempcomp"

unfoldable pub meters_request : Msgs → XmlMeters → Text
unfolding meters_request_create meter_tag
meters_request m val = meters_request_create m (meter_tag val)

-- `metersResponseCreate` for a text; for an `int` and a `float` the text is what `<<` prints.
unfoldable pub meters_response_create : Msgs → Text → Text → Text
meters_response_create m type val = body (
    codes "<powerguru version=\""
    ∷ m.version
    ∷ codes "\">"
    ∷ codes "<meters><"
    ∷ type
    ∷ codes ">"
    ∷ val
    ∷ codes "</"
    ∷ type
    ∷ codes ">"
    ∷ codes "</meters>"
    ∷ codes "</powerguru>"
    ∷ ends
    ∷ [])

unfoldable pub meters_response_int : Msgs → Text → ℤ → Text
unfolding meters_response_create
meters_response_int m type val = meters_response_create m type (print_int val)

unfoldable pub request_meters : Msgs → XmlMeters → Text
unfolding meter_tag
request_meters m tag = body (
    codes "<powerguru version=\""
    ∷ m.version
    ∷ codes "\"><meters>"
    ∷ meter_tag tag
    ∷ codes "</meters></powerguru>"
    ∷ ends
    ∷ [])

unfoldable pub status_tag : XmlStatus → Text
status_tag sysversion = codes "sysversion"
status_tag revision = codes "revision"
status_tag errormode = codes "errormode"
status_tag warningmode = codes "warningmode"
status_tag opmode = codes "opmode"

unfoldable pub request_status : Msgs → XmlStatus → Text
unfolding status_tag
request_status m tag = body (
    codes "<powerguru version=\""
    ∷ m.version
    ∷ codes "\"><status>"
    ∷ status_tag tag
    ∷ codes "</status></powerguru>"
    ∷ ends
    ∷ [])

unfoldable pub config_tag : XmlConfig → Text
config_tag genconfig = codes "generator"
config_tag gridconfig = codes "grid"
config_tag buy = codes "buy"
config_tag sell = codes "sell"
config_tag charge = codes "charge"

unfoldable pub request_config : Msgs → XmlConfig → Text
unfolding config_tag
request_config m tag = body (
    codes "<powerguru version=\""
    ∷ m.version
    ∷ codes "\"><config>"
    ∷ config_tag tag
    ∷ codes "</config></powerguru>"
    ∷ ends
    ∷ [])

unfoldable pub command_tag : XmlCommand → Text
command_tag generator = codes "generator"
command_tag grid = codes "grid"
command_tag relay = codes "relay"
command_tag auxilary = codes "auxilary"
command_tag poll = codes "poll"
command_tag inverter = codes "inverter"
command_tag charger = codes "charger"

-- A request for a command is sent as a status.
unfoldable pub request_command : Msgs → XmlCommand → Text
unfolding command_tag
request_command m tag = body (
    codes "<powerguru version=\""
    ∷ m.version
    ∷ codes "\"><status>"
    ∷ command_tag tag
    ∷ codes "</status></powerguru>"
    ∷ ends
    ∷ [])

unfoldable pub msg_tag : XmlMsg → Text
msg_tag heartbeat = codes "heartbeat"
msg_tag status = codes "status"
msg_tag meter = codes "meters"
msg_tag config = codes "config"
msg_tag command = codes "command"
msg_tag response = codes "response"

unfoldable pub response_create : Msgs → XmlMsg → Text → Text → Text
unfolding msg_tag
response_create m type tag val =
    let str = msg_tag type in
    body (
      codes "<powerguru version=\""
      ∷ m.version
      ∷ codes "\"><"
      ∷ str
      ∷ codes "><"
      ∷ tag
      ∷ codes ">"
      ∷ val
      ∷ codes "</"
      ∷ tag
      ∷ codes "></"
      ∷ str
      ∷ codes "></powerguru>"
      ∷ ends
      ∷ [])

unfoldable pub config_create : Text → ℤ → Text
config_create tag value = body (
    codes "<powerguru>"
    ∷ codes "<"
    ∷ tag
    ∷ codes ">"
    ∷ print_int value
    ∷ codes "</"
    ∷ tag
    ∷ codes ">"
    ∷ codes "</powerguru>"
    ∷ ends
    ∷ [])

-- ===== src/Msgs/Methods.antt =====
-- The table of `Msgs::init ()`: the function for the tag of a node, and `methodGet`.
use powerguru.Prelude.{List, [], ◌∷◌, Option, none, some, Text, codes, if◌then◌else◌}
use powerguru.Std.Str.{eq_text}

-- The functions of the table.
pub data Method : Type 0 where
  powerguru_process helo_process client_process server_process meters_process : Method
  charge_amps_process load_amps_process pv_amps_process pv_volts_process : Method
  daily_kwh_process hertz_process battery_volts_process buy_amps_process : Method
  sell_amps_process ac_volts_out_process ac1_in_process ac2_in_process : Method
  status_process config_process command_process : Method

-- The table that `init ()` fills.
abbrev pub methods : List (Text × Method)
methods =
    (codes "powerguru", powerguru_process)
    ∷ (codes "helo", helo_process)
    ∷ (codes "client", client_process)
    ∷ (codes "server", server_process)
    ∷ (codes "meters", meters_process)
    ∷ (codes "charge-mps", charge_amps_process)
    ∷ (codes "load-amps", load_amps_process)
    ∷ (codes "pv-amps", pv_amps_process)
    ∷ (codes "pv-volts", pv_volts_process)
    ∷ (codes "daily-kwh", daily_kwh_process)
    ∷ (codes "hertz", hertz_process)
    ∷ (codes "battery-volts", battery_volts_process)
    ∷ (codes "buy-amps", buy_amps_process)
    ∷ (codes "sell-amps", sell_amps_process)
    ∷ (codes "ac-volts-out", ac_volts_out_process)
    ∷ (codes "ac1-volts-in", ac1_in_process)
    ∷ (codes "ac2-volts-in", ac2_in_process)
    ∷ (codes "status", status_process)
    ∷ (codes "version", status_process)
    ∷ (codes "revision", status_process)
    ∷ (codes "opmode", status_process)
    ∷ (codes "errormode", status_process)
    ∷ (codes "warningmode", status_process)
    ∷ (codes "config", config_process)
    ∷ (codes "generator", config_process)
    ∷ (codes "grid", config_process)
    ∷ (codes "buy", config_process)
    ∷ (codes "sell", config_process)
    ∷ (codes "start", config_process)
    ∷ (codes "end", config_process)
    ∷ (codes "command", command_process)
    ∷ (codes "auxilary", command_process)
    ∷ (codes "relay", command_process)
    ∷ (codes "poll", command_process)
    ∷ (codes "inverter", command_process)
    ∷ (codes "charger", command_process)
    ∷ []

unfoldable pub find_method : List (Text × Method) → Text → Option Method
unfolding eq_text
find_method [] name = none
find_method ((tag, method) ∷ table) name =
    let rest = find_method table name in if eq_text tag name then some method else rest

-- `methodGet`: for a tag that is not in the table the function ends without a `return`.
unfoldable pub method_get : Text → Option Method
unfolding find_method
method_get name = find_method methods name

-- ===== src/Xantrex/Setup.antt =====
-- The calls of `SetItem` in `XantrexUI::SetDefaultValues`: the headings 9 to 20, the setup menu.
use powerguru.Prelude.{List, [], ◌∷◌, codes}
use powerguru.Prelude.Int.{pos}
use powerguru.Xantrex.Calls.{Call, head, information, whole, decimal}

abbrev pub inverter_setup : List Call
inverter_setup =
    head (codes "Inverter Setup") 9
    ∷ information (codes "Set Grid Usage") 9 1
    ∷ decimal (codes "Set Low battery  cut out VDC") 9 2 (pos 220) []
    ∷ whole (codes "Set LBCO delay   minutes") 9 3 (pos 15) []
    ∷ decimal (codes "Set Low battery  cut in VDC") 9 4 (pos 260) []
    ∷ decimal (codes "Set High battery cut out VDC") 9 5 (pos 320) []
    ∷ whole (codes "Set search       watts") 9 6 (pos 48) []
    ∷ whole (codes "Set search       spacing") 9 7 (pos 59) []
    ∷ []

abbrev pub battery_charging : List Call
battery_charging =
    head (codes "Battery Charging") 10
    ∷ decimal (codes "Set Bulk         volts DC") 10 1 (pos 288) []
    ∷ whole (codes "Set Absorption   time h:m") 10 2 (pos 2) []
    ∷ decimal (codes "Set Float        volts DC") 10 3 (pos 268) []
    ∷ decimal (codes "Set Equalize     volts DC") 10 4 (pos 288) []
    ∷ whole (codes "Set Equalize     time h:m") 10 5 (pos 2) []
    ∷ whole (codes "Set Max Charge   amps DC") 10 6 (pos 30) []
    ∷ information (codes "Set Temp Comp    LeadAcid Nicad") 10 7
    ∷ []

abbrev pub ac_inputs : List Call
ac_inputs =
    head (codes "AC Inputs") 11
    ∷ head (codes "inverter synced  to that input.") 11
    ∷ whole (codes "Set Grid (AC1)   amps AC") 11 1 (pos 60) []
    ∷ whole (codes "Set Gen (AC2)    amps AC") 11 2 (pos 30) []
    ∷ whole (codes "Set Input lower  limit VAC") 11 3 (pos 108) []
    ∷ whole (codes "Set Input upper  limit VAC") 11 4 (pos 132) []
    ∷ []

abbrev pub gen_auto_start : List Call
gen_auto_start =
    head (codes "Gen Auto Start   setup") 12
    ∷ whole (codes "Set Load Start   amps AC") 12 1 (pos 33) []
    ∷ whole (codes "Set Load Start   delay min") 12 2 (pos 5) []
    ∷ whole (codes "Set Load Stop    delay min") 12 3 (pos 5) []
    ∷ decimal (codes "Set 24 hr start  volts DC") 12 4 (pos 246) []
    ∷ decimal (codes "Set 2 hr start   volts DC") 12 5 (pos 236) []
    ∷ decimal (codes "Set 15 min start volts DC") 12 6 (pos 226) []
    ∷ whole (codes "Read LBCO 30 sec start VDC") 12 7 (pos 22) []
    ∷ whole (codes "Set Exercise     period days") 12 8 (pos 30) []
    ∷ whole (codes "Set Maximum run  time h:m") 12 9 (pos 8) []
    ∷ whole (codes "Set Max Run time to 0 to defeat.") 12 10 (pos 0) []
    ∷ whole (codes "Set Exercise to 0 to defeat.") 12 11 (pos 0) []
    ∷ whole (codes "See menu 9 to    to set LBCO.") 12 12 (pos 0) []
    ∷ []

abbrev pub gen_starting : List Call
gen_starting =
    head (codes "Gen starting     details") 13
    ∷ whole (codes "Set RY7 Function GlowStop Run") 13 1 (pos 0) []
    ∷ whole (codes "Set Gen warmup   seconds") 13 2 (pos 60) []
    ∷ whole (codes "Set Pre Crank    seconds") 13 3 (pos 10) []
    ∷ whole (codes "Set Max Cranking seconds") 13 4 (pos 10) []
    ∷ whole (codes "Set Post Crank   seconds") 13 5 (pos 30) []
    ∷ []

abbrev pub auxiliary_relays : List Call
auxiliary_relays =
    head (codes "Auxiliary Relays R9 R10 R11") 14
    ∷ whole (codes "Set Relay 9      volts DC") 14 1 (pos 29) []
    ∷ whole (codes "R9 Hysteresis    volts DC") 14 2 (pos 2) []
    ∷ decimal (codes "Set Relay 10     volts DC") 14 3 (pos 295) []
    ∷ whole (codes "R10 Hysteresis   volts DC") 14 4 (pos 2) []
    ∷ whole (codes "Set Relay 11     volts DC") 14 5 (pos 30) []
    ∷ whole (codes "R11 Hysteresis   volts DC") 14 6 (pos 2) []
    ∷ information (codes "Close on batt >  setpoint.") 14 7
    ∷ information (codes "Open  on  batt < setpoint - Hys") 14 8
    ∷ information (codes "Relays have 2    second delay on") 14 9
    ∷ information (codes "Close, 0.1 sec   delay on open") 14 10
    ∷ []

abbrev pub bulk_charge : List Call
bulk_charge =
    head (codes "Bulk Charge      Trigger Timer") 15
    ∷ whole (codes "Set Start Bulk   time") 15 1 (pos 0) []
    ∷ information (codes "To disable timer set to 00:00") 15 2
    ∷ information (codes "If grid timer    active set bulk") 15 3
    ∷ information (codes "time after start charge time.") 15 4
    ∷ information (codes "In SLT mode don't disable this") 15 5
    ∷ information (codes "timer. It is the daily chg time.") 15 6
    ∷ []

abbrev pub low_battery_transfer : List Call
low_battery_transfer =
    head (codes "Low Battery      Transfer (LBX)") 16
    ∷ decimal (codes "Set Low Battery  TransferVDC") 16 1 (pos 268) []
    ∷ decimal (codes "Set Low Battery  cut in  VDC") 16 2 (pos 260) []
    ∷ information (codes "See menu 9 to    enable LBX mode.") 16 3
    ∷ information (codes "Make sure LBX is above LBCO volts.") 16 4
    ∷ []

abbrev pub battery_selling : List Call
battery_selling =
    head (codes "Battery Selling") 17
    ∷ decimal (codes "Set Battery Sell volts") 17 1 (pos 268) []
    ∷ whole (codes "Set Max Sell     amps") 17 2 (pos 30) []
    ∷ information (codes "See menu 9 to    enable SELL mode.") 17 3
    ∷ information (codes "Make sure LBX is above LBCO volts.") 17 4
    ∷ []

abbrev pub grid_usage_timer : List Call
grid_usage_timer =
    head (codes "Grid Usage Timer") 18
    ∷ whole (codes "Set Charge       time") 18 1 (pos 21) []
    ∷ whole (codes "End Charge       time") 18 2 (pos 21) []
    ∷ information (codes "After Start      Charge time:") 18 3
    ∷ information (codes "SELL mode        charges battery.") 18 4
    ∷ information (codes "FLT mode         charges battery") 18 5
    ∷ information (codes "After End Charge time:") 18 6
    ∷ information (codes "SELL mode sells  battery to AC1.") 18 7
    ∷ information (codes "FLT mode drops   AC1 and inverts") 18 8
    ∷ information (codes "Timer on when    start < > end;") 18 9
    ∷ information (codes "timer off when   start = end") 18 10
    ∷ information (codes "Sell and float   modes use timer") 18 11
    ∷ information (codes "SLT and LBX mode ignore timer") 18 12
    ∷ []

abbrev pub information_battery : List Call
information_battery =
    head (codes "Information file battery") 19
    ∷ information (codes "Batt temp comp   changes battery") 19 1
    ∷ information (codes "voltage reading  away from actual") 19 2
    ∷ information (codes "HBCO resets at:  6v/48, 3v/24 and") 19 3
    ∷ information (codes "1.5v/12v under   HBCO.") 19 4
    ∷ information (codes "LowBattTransfer  used in LBX, FLT") 19 5
    ∷ information (codes "Modes only. Goes back to battery") 19 6
    ∷ information (codes "at LowBattCutIn  (aka LBCI).") 19 7
    ∷ information (codes "For LBX mode set below LBCI so") 19 8
    ∷ information (codes "charger won't    cycle batteries") 19 9
    ∷ information (codes "up and down and  set LBCO below.") 19 10
    ∷ []

abbrev pub end_setup_menu : List Call
end_setup_menu = head (codes "END SETUP MENU") 20 ∷ []

-- ===== src/Xantrex/User.antt =====
-- The calls of `SetItem` in `XantrexUI::SetDefaultValues`: the headings 0 to 8, the user menu.
use powerguru.Prelude.{true, false, List, [], ◌∷◌, codes}
use powerguru.Prelude.Int.{pos}
use powerguru.Xantrex.Calls.{Call, head, information, flag, whole, decimal}

abbrev pub top_of_menu : List Call
top_of_menu = head (codes "Top of Menu") 0 ∷ []

abbrev pub inverter_mode : List Call
inverter_mode =
    head (codes "Inverter Mode") 1
    ∷ flag (codes "Set Inverter     OFF SRCH ON CHG") 1 1 true []
    ∷ information (codes "CHG avail. Only  in FLT mode") 1 2
    ∷ information (codes "Press red or     setpoint button") 1 3
    ∷ information (codes "to move.         Move cursor to") 1 4
    ∷ information (codes "Inverter OFF to  resetOverCurrent") 1 5
    ∷ []

abbrev pub generator_mode : List Call
generator_mode =
    head (codes "Generator Mode") 2
    ∷ flag (codes "Set Generator    OFF AUTO ON EQ") 2 1 true []
    ∷ flag (codes "Gen under/over   speed") 2 2 false (codes "GenSpeed")
    ∷ flag (codes "Generator start  error") 2 3 false (codes "GenStart")
    ∷ flag (codes "Generator sync   error") 2 4 false (codes "GenSync")
    ∷ flag (codes "Gen max run Time error") 2 5 false (codes "GenMax")
    ∷ flag (codes "Load Amp Start   ready") 2 6 false (codes "LoadAmp")
    ∷ flag (codes "Voltage Start    ready") 2 7 false (codes "VoltStart")
    ∷ flag (codes "Exercise Start   ready") 2 8 false (codes "ExerStart")
    ∷ []

abbrev pub engineering : List Call
engineering =
    head (codes "Engineering") 3
    ∷ information (codes "Press reset now  for defaults") 3 1
    ∷ flag (codes "Revision 4.01") 3 2 true []
    ∷ information (codes "5916 195th St NE Arlington, WA") 3 3
    ∷ information (codes "98223 USA") 3 4
    ∷ information (codes "Ph  360-435-8826 Fax 360-435-2229") 3 5
    ∷ []

abbrev pub meters : List Call
meters =
    head (codes "Meters") 4
    ∷ whole (codes "Inverter/charger amps AC") 4 1 (pos 0) (codes "ChargerAmps")
    ∷ whole (codes "Input            amps AC") 4 2 (pos 0) (codes "InputAmps")
    ∷ whole (codes "Load             amps AC") 4 3 (pos 0) (codes "LoadAmps")
    ∷ decimal (codes "Battery actual   volts DC") 4 4 (pos 251) (codes "BattVolts")
    ∷ decimal (codes "Battery TempComp volts DC") 4 5 (pos 251) (codes "TempComp")
    ∷ whole (codes "Inverter         volts AC") 4 6 (pos 0) (codes "InvertVolts")
    ∷ whole (codes "Grid (AC1)       volts AC") 4 7 (pos 0) (codes "GridVolts")
    ∷ whole (codes "Generator (AC2)  volts AC") 4 8 (pos 0) (codes "GenVolts")
    ∷ whole (codes "Read Frequency   Hertz") 4 9 (pos 0) (codes "ReadHertz")
    ∷ information (codes "AC1 & AC2 volts  valid only when") 4 10
    ∷ information (codes "inverter synced  to that input.") 4 11
    ∷ information (codes "Batt volt actual is used for") 4 12
    ∷ information (codes "LBCO,HBCO,LBX,   LBCI,sell volts") 4 13
    ∷ information (codes "and gen starting") 4 14
    ∷ information (codes "Batt volt temp   comp is used,") 4 15
    ∷ information (codes "for float, bulk, eq & aux relays") 4 16
    ∷ []

abbrev pub error_causes : List Call
error_causes =
    head (codes "Error Causes") 5
    ∷ flag (codes "Over Current") 5 1 false (codes "OverCurrent")
    ∷ flag (codes "Transformer      overtemp") 5 2 false (codes "OverTemp")
    ∷ flag (codes "Heatsink         overtemp") 5 3 false (codes "HeatSink")
    ∷ flag (codes "High Battery     voltage") 5 4 false (codes "HighBatt")
    ∷ flag (codes "Low Battery      voltage") 5 5 false (codes "LowBatt")
    ∷ flag (codes "Inverter breaker tripped") 5 6 false (codes "Tripped")
    ∷ flag (codes "Manual Off") 5 7 false (codes "ManualOff")
    ∷ flag (codes "AC source wired  to output") 5 8 false (codes "ACWired")
    ∷ flag (codes "External error   (Stacked)") 5 9 false (codes "ExtError")
    ∷ flag (codes "Generator start  error") 5 10 false (codes "GenError")
    ∷ flag (codes "Generator sync   error") 5 11 false (codes "SyncError")
    ∷ flag (codes "Gen maximum run  time error") 5 12 false (codes "MaxRunError")
    ∷ flag (codes "Gen Under/Over   speed") 5 13 false (codes "SpeedError")
    ∷ flag (codes "Inverter breaker tripped") 5 14 false (codes "BreakerError")
    ∷ []

abbrev pub time_of_day : List Call
time_of_day =
    head (codes "Time of Day") 6
    ∷ whole (codes "Time of Day      Set Clock hour") 6 1 (pos 0) []
    ∷ whole (codes "Set Clock minute") 6 2 (pos 0) (codes "Minute")
    ∷ whole (codes "Set Clock second") 6 3 (pos 0) (codes "Second")
    ∷ []

abbrev pub generator_timer : List Call
generator_timer =
    head (codes "Generator Timer") 7
    ∷ whole (codes "Start Quiet      time h:m") 7 1 (pos 8) []
    ∷ whole (codes "End Quiet        time h:m") 7 2 (pos 8) []
    ∷ []

abbrev pub end_user_menu : List Call
end_user_menu = head (codes "END USER MENU") 8 ∷ []

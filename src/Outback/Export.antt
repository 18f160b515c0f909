-- ===== src/Outback/Export.antt =====
-- `outback::exportMeterData`. A `float` is a number of tenths: the readings are whole numbers or have one
-- decimal digit, and the rounding of the quotient to `float` is left out.
use powerguru.Prelude.{ℕ}
use powerguru.Prelude.Int.{ℤ, pos, ◌-ℤ◌, ◌*ℤ◌}
use powerguru.Database.{mx_outback, fx_outback, MeterData}
use powerguru.Outback.Device.{OutbackType, outback_none, outback_mx, outback_fx, Outback, char_int}

-- A whole number as a `float` in tenths.
abbrev pub whole : ℤ → ℤ
whole v = pos 10 *ℤ v

-- The switch on `_type`: the default leaves the type as it was, and the address as the unit.
unfoldable pub export_unit : OutbackType → ℕ → MeterData ℤ → MeterData ℤ
export_unit outback_mx address m = record m {
  type = mx_outback;
  unit = char_int address -ℤ pos b'0';
}
export_unit outback_fx address m = record m {
  type = fx_outback;
  unit = char_int address -ℤ pos b'A';
}
export_unit outback_none address m = record m { unit = char_int address }

unfoldable pub export_meter_data : Outback → MeterData ℤ → MeterData ℤ
unfolding export_unit
export_meter_data d m =
    let m1 = export_unit d.type d.address m in
    record m1 {
      charge_amps = d.charge_current;
      ac_load_amps = d.inverter_current;
      battery_volts = d.battery_voltage;
      tempcomp_volts = pos 0;
      ac_volts_out = whole d.ac_output_voltage;
      ac1_volts_in = whole d.ac_input_voltage;
      buy_amps = whole d.buy_current;
      sell_amps = whole d.sell_current;
      daily_kwh = d.daily_kwh;
      hertz = pos 60;
      ac2_volts_in = pos 0;
      pv_amps_in = d.pv_current;
      pv_volts_in = whole d.pv_input_voltage;
    }

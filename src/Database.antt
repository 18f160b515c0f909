-- ===== src/Database.antt =====
-- lib/database.h: the record of meter readings that the devices fill.
pub mod Maria
pub mod Columns
pub mod Inserts
pub mod Rows
pub mod Format
pub mod Postgres
mod Examples
use powerguru.Prelude.Int.{ℤ}

-- `device_t`
pub data DeviceType : Type 0 where
  no_device mx_outback fx_outback sw_xantrex : DeviceType

-- `meter_data_t`, where `Float` holds a `float`.
pub record MeterData (Float : Type 0) : Type 0 where
  pub unit : ℤ
  pub type : DeviceType
  pub charge_amps : ℤ
  pub ac_load_amps : ℤ
  pub battery_volts : Float
  pub ac_volts_out : Float
  pub ac1_volts_in : Float
  pub ac2_volts_in : Float
  pub pv_amps_in : ℤ
  pub pv_volts_in : Float
  pub buy_amps : Float
  pub sell_amps : Float
  pub daily_kwh : Float
  pub hertz : ℤ
  pub tempcomp_volts : Float

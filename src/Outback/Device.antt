-- ===== src/Outback/Device.antt =====
-- The state of `class outback`, its enumerations, and how reading a page can go wrong.
use powerguru.Prelude.{ℕ, zero, suc, ◌-◌, [], ◌∷◌, ltb, if◌then◌else◌, Text}
use powerguru.Prelude.Int.{ℤ, pos, negsuc}
pub use powerguru.Std.Run.{
  Run, done, out_of_range, undefined, ◌>>=◌, bind-done, bind-out_of_range, bind-ne-undefined,
}

pub data OutbackType : Type 0 where
  outback_none outback_mx outback_fx : OutbackType

-- The enumerations of the header are numbers: `static_cast` takes any value into them.
pub record Outback : Type 0 where
  pub type : OutbackType
  pub address : ℕ
  pub inverter_current : ℤ
  pub charge_current : ℤ
  pub buy_current : ℤ
  pub pv_current : ℤ
  pub sell_current : ℤ
  pub ac_input_voltage : ℤ
  pub ac_output_voltage : ℤ
  pub pv_input_voltage : ℤ
  pub battery_voltage : ℤ
  pub daily_kwh : ℤ
  pub operating_mode : ℤ  -- op_mode_t
  pub ac_mode : ℤ  -- AC_mode_t
  pub misc_byte : ℤ  -- misc_byte_t
  pub aux_mode : ℤ  -- aux_mode_t
  pub charge_mode : ℤ  -- charge_mode_t
  pub error_mode : ℤ  -- error_mode_t
  pub warning_mode : ℤ  -- warning_mode_t
  pub checksum : ℤ

-- The constructor: `_operating_mode(SUPPORT)`, `_misc_byte(RESERVE1)`, the other modes are 0.
unfoldable pub new : Outback
new = record {
  type = outback_none;
  address = b'x';
  inverter_current = pos 0;
  charge_current = pos 0;
  buy_current = pos 0;
  pv_current = pos 0;
  sell_current = pos 0;
  ac_input_voltage = pos 0;
  ac_output_voltage = pos 0;
  pv_input_voltage = pos 0;
  battery_voltage = pos 0;
  daily_kwh = pos 0;
  operating_mode = pos 8;
  ac_mode = pos 0;
  misc_byte = pos 2;
  aux_mode = pos 0;
  charge_mode = pos 0;
  error_mode = pos 0;
  warning_mode = pos 0;
  checksum = pos 0;
}

-- `retcode_t`
pub data RetCode : Type 0 where
  success error : RetCode

-- `s[i]` of a text with its terminating NUL.
unfoldable pub char_at : Text → ℕ → Run ℕ
char_at [] zero = done 0
char_at [] (suc i) = undefined
char_at (c ∷ s) zero = done c
char_at (c ∷ s) (suc i) = char_at s i

-- `char` is signed.
unfoldable pub char_int : ℕ → ℤ
char_int c = if ltb c 128 then pos c else negsuc (255 - c)

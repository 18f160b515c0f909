-- ===== src/Xanbus/Commands.antt =====
-- devices/xanbus.h: the commands of a Xanbus device, `xanbus_command_e`, and an entry of the table.
use powerguru.Prelude.{Bool, Text}

pub data Command : Type 0 where
  xaccess access_query backlight cont cont_query custom11_query custom12_query custom11erase :
      Command
  custom12erase custom21 custom22 custom21_query custom22_query custom21erase custom22erase :
      Command
  dccomplev_query dcdc_query deratelimit_query err_query faultactive_query faultgnd_query : Command
  faultlast_query faultlog_query freq_query fwhw_query idn_query iin_query inv_query : Command
  iout_query knock kwhlife_query kwhlifesys_query kwhtoday_query kwhtodaysys_query : Command
  xkwhtoday_query measengy_query measengysys_query measicmm_query measin_query measout_query :
      Command
  measraw_query meastemp_query memfree_query modelid_query modelstr_query monparam_query : Command
  monall_query monauxparam_query monens_query monensparam_query monext_query : Command
  monextparam_query monfb_query monfbparam_query mongnd_query mongndparam_query : Command
  mongrid_query mongridparam_query montemp_query montempparam_query monovparam_query : Command
  monuvparam_query monvin_query mppt_query mpptdbg_query mpptlev_query mpptlevm_query : Command
  mpptoffset_query mpptstat_query nvmemspace_query offset_query olderlim_query pdcmppt_query :
      Command
  pin_query pout_query poutsys_query prod_query powlimit_query powseq_query powseqclr : Command
  queued_query rectime_query relay_query ripcomp_query rom_query scale_query scid_query : Command
  scroll standby standby_query templimit_query templimitstep_query time_query vdcref_query : Command
  vin_query xbadx_query : Command

-- `cmd_data_t`.
pub record CmdData : Type 0 where
  pub type : Command
  pub command : Text
  pub query : Bool

-- ===== src/Xanbus/Table.antt =====
-- devices/xanbus.cc: the table of the commands and their texts.
use powerguru.Prelude.{Bool, true, false, List, [], ◌∷◌, Text, codes}
use powerguru.Xanbus.Commands.{
  Command, CmdData, xaccess, backlight, cont, custom11_query, custom12_query, custom11erase,
  custom12erase, custom21, custom22, custom21_query, custom22_query, custom21erase, custom22erase,
  dccomplev_query, dcdc_query, deratelimit_query, err_query, faultactive_query, faultgnd_query,
  faultlast_query, faultlog_query, freq_query, fwhw_query, idn_query, iin_query, inv_query,
  iout_query, knock, kwhlife_query, kwhlifesys_query, kwhtoday_query, kwhtodaysys_query,
  xkwhtoday_query, measengy_query, measengysys_query, measicmm_query, measin_query, measout_query,
  measraw_query, meastemp_query, memfree_query, modelid_query, modelstr_query, monparam_query,
  monall_query, monauxparam_query, monens_query, monensparam_query, monext_query, monextparam_query,
  monfb_query, monfbparam_query, mongnd_query, mongndparam_query, mongrid_query, mongridparam_query,
  montemp_query, montempparam_query, monovparam_query, monuvparam_query, monvin_query, mppt_query,
  mpptdbg_query, mpptlev_query, mpptlevm_query, mpptoffset_query, mpptstat_query, nvmemspace_query,
  offset_query, olderlim_query, pdcmppt_query, pin_query, pout_query, poutsys_query, prod_query,
  powlimit_query, powseq_query, powseqclr, queued_query, rectime_query, relay_query, ripcomp_query,
  rom_query, scale_query, scid_query, scroll, standby, standby_query, templimit_query,
  templimitstep_query, time_query, vdcref_query, vin_query, xbadx_query,
}

abbrev entry : Command → Text → Bool → CmdData
entry type command query = record { type = type; command = command; query = query }

abbrev pub xanbus : List CmdData
xanbus =
    entry xaccess (codes "ACCESS") false
    ∷ entry backlight (codes "BACKLIGHT") false
    ∷ entry cont (codes "CONT") false
    ∷ entry custom11_query (codes "CUSTOM11?") true
    ∷ entry custom12_query (codes "CUSTOM12?") true
    ∷ entry custom11erase (codes "CUSTOM11ERASE") false
    ∷ entry custom12erase (codes "CUSTOM12ERASE") false
    ∷ entry custom21 (codes "CUSTOM21") true
    ∷ entry custom22 (codes "CUSTOM22") true
    ∷ entry custom21_query (codes "CUSTOM21?") true
    ∷ entry custom22_query (codes "CUSTOM22?") true
    ∷ entry custom21erase (codes "CUSTOM21ERASE") true
    ∷ entry custom22erase (codes "CUSTOM22ERASE") true
    ∷ entry dccomplev_query (codes "DCCOMPLEV?") true
    ∷ entry dcdc_query (codes "DCDC?") true
    ∷ entry deratelimit_query (codes "DERATELIMIT?") true
    ∷ entry err_query (codes "ERR?") true
    ∷ entry faultactive_query (codes "FAULTACTIVE?") true
    ∷ entry faultgnd_query (codes "FAULTGND?") true
    ∷ entry faultlast_query (codes "FAULTLAST?") true
    ∷ entry faultlog_query (codes "FAULTLOG?") true
    ∷ entry freq_query (codes "FREQ?") true
    ∷ entry fwhw_query (codes "FWHW?") true
    ∷ entry idn_query (codes "IDN?") true
    ∷ entry iin_query (codes "IIN?") true
    ∷ entry inv_query (codes "INV?") true
    ∷ entry iout_query (codes "IOUT?") true
    ∷ entry knock (codes "KNOCK") true
    ∷ entry kwhlife_query (codes "KWHLIFE?") true
    ∷ entry kwhlifesys_query (codes "KWHLIFESYS?") true
    ∷ entry kwhtoday_query (codes "KWHTODAY?") true
    ∷ entry kwhtodaysys_query (codes "KWHTODAYSYS?") true
    ∷ entry xkwhtoday_query (codes "XKWHTODAY?") true
    ∷ entry measengy_query (codes "MEASENGY?") true
    ∷ entry measengysys_query (codes "MEASENGYSYS?") true
    ∷ entry measicmm_query (codes "MEASICMM?") true
    ∷ entry measin_query (codes "MEASIN?") true
    ∷ entry measout_query (codes "MEASOUT?") true
    ∷ entry measraw_query (codes "MEASRAW?") true
    ∷ entry meastemp_query (codes "MEASTEMP?") true
    ∷ entry memfree_query (codes "MEMFREE?") true
    ∷ entry modelid_query (codes "MODELID?") true
    ∷ entry modelstr_query (codes "MODELSTR?") true
    ∷ entry monparam_query (codes "MONPARAM?") true
    ∷ entry monall_query (codes "MONALL?") true
    ∷ entry monauxparam_query (codes "MONAUXPARAM?") true
    ∷ entry monens_query (codes "MONENS?") true
    ∷ entry monensparam_query (codes "MONENSPARAM?") true
    ∷ entry monext_query (codes "MONEXT?") true
    ∷ entry monextparam_query (codes "MONEXTPARAM?") true
    ∷ entry monfb_query (codes "MONFB?") true
    ∷ entry monfbparam_query (codes "MONFBPARAM?") true
    ∷ entry mongnd_query (codes "MONGND?") true
    ∷ entry mongndparam_query (codes "MONGNDPARAM?") true
    ∷ entry mongrid_query (codes "MONGRID?") true
    ∷ entry mongridparam_query (codes "MONGRIDPARAM?") true
    ∷ entry montemp_query (codes "MONTEMP?") true
    ∷ entry montempparam_query (codes "MONTEMPPARAM?") true
    ∷ entry monovparam_query (codes "MONOVPARAM?") true
    ∷ entry monuvparam_query (codes "MONUVPARAM?") true
    ∷ entry monvin_query (codes "MONVIN?") true
    ∷ entry mppt_query (codes "MPPT?") true
    ∷ entry mpptdbg_query (codes "MPPTDBG?") true
    ∷ entry mpptlev_query (codes "MPPTLEV?") true
    ∷ entry mpptlevm_query (codes "MPPTLEVM?") true
    ∷ entry mpptoffset_query (codes "MPPTOFFSET?") true
    ∷ entry mpptstat_query (codes "MPPTSTAT?") true
    ∷ entry nvmemspace_query (codes "NVMEMSPACE?") true
    ∷ entry offset_query (codes "OFFSET?") true
    ∷ entry olderlim_query (codes "OLDERLIM?") true
    ∷ entry pdcmppt_query (codes "PDCMPPT?") true
    ∷ entry pin_query (codes "PIN?") true
    ∷ entry pout_query (codes "POUT?") true
    ∷ entry poutsys_query (codes "POUTSYS?") true
    ∷ entry prod_query (codes "PROD?") true
    ∷ entry powlimit_query (codes "POWLIMIT?") true
    ∷ entry powseq_query (codes "POWSEQ?") true
    ∷ entry powseqclr (codes "POWSEQCLR") true
    ∷ entry queued_query (codes "QUEUED?") true
    ∷ entry rectime_query (codes "RECTIME?") true
    ∷ entry relay_query (codes "RELAY?") true
    ∷ entry ripcomp_query (codes "RIPCOMP?") true
    ∷ entry rom_query (codes "ROM?") true
    ∷ entry scale_query (codes "SCALE?") true
    ∷ entry scid_query (codes "SCID?") true
    ∷ entry scroll (codes "SCROLL") true
    ∷ entry standby (codes "STANDBY") true
    ∷ entry standby_query (codes "STANDBY?") true
    ∷ entry templimit_query (codes "TEMPLIMIT?") true
    ∷ entry templimitstep_query (codes "TEMPLIMITSTEP?") true
    ∷ entry time_query (codes "TIME?") true
    ∷ entry vdcref_query (codes "VDCREF?") true
    ∷ entry vin_query (codes "VIN?") true
    ∷ entry xbadx_query (codes "XBADX?") true
    ∷ []

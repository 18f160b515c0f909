-- ===== src/Outback/Loop/Reports.antt =====
-- Runs of `outback::main` over pages of MX charge controllers, as the serial port hands them on.
use powerguru.Prelude.{
  ℕ, ◌==◌, ◌≡◌, ◌≢◌, refl, sym, ◌∙◌, ap, true, false, List, [], ◌∷◌, ◌++◌, map, append_assoc,
  append-nil, Text, length, arith, All, inl, inr,
}
use powerguru.Prelude.Int.{ℤ, pos}
use powerguru.Database.{MeterData}
use powerguru.Serial.{Round, other, bytes}
use powerguru.Outback.Device.{Outback, outback_none, done, ◌>>=◌, bind-done, char_at, char_int}
use powerguru.Outback.Checksum.{calc_checksum}
use powerguru.Outback.Checksum.Bounds.{calc_checksum_defined}
use powerguru.Outback.Page.{MxPage, print_page, digits2, digits3}
use powerguru.Outback.Parse.{parse}
use powerguru.Outback.Parse.Columns.{parse-error}
use powerguru.Outback.Export.{export_meter_data, whole}
use powerguru.Outback.Loop.Framing.{
  IsPage, inner, length-inner, print_page-inner, read_serial-bytes, inner-Printable,
  filter_line-page, c_string-Printable,
}
use powerguru.Outback.Loop.{
  Loop, Key, dtr_off, dtr_on, positive, read_serial, press, key_of, is_quit, page_step, main,
}

-- One turn of the loop: the key, what the kernel answers, and the page that it brings.
pub record Turn : Type 0 where
  pub key : ℤ
  pub kernel : ℕ → Round
  pub page : MxPage

pub record IsTurn (t : Turn) : Type 0 where
  pub goes_on : is_quit (key_of t.key) ≡ false
  pub waits : (t.kernel 0).wait ≡ other
  pub brings : (t.kernel 0).input ≡ bytes (print_page t.page)
  pub lays_out : IsPage t.page

abbrev pub input_of : Turn → ℤ × (ℕ → Round)
input_of t = (t.key, t.kernel)

-- What is stored of a page that was refused: the readings that the object has had before.
abbrev pub stale : Outback → MeterData ℤ → MeterData ℤ
stale d blank = record blank {
  unit = pos b',';
  charge_amps = d.charge_current;
  ac_load_amps = d.inverter_current;
  battery_volts = d.battery_voltage;
  tempcomp_volts = pos 0;
  ac_volts_out = whole d.ac_output_voltage;
  ac1_volts_in = whole d.ac_input_voltage;
  buy_amps = whole d.buy_current;
  sell_amps = whole d.sell_current;
  daily_kwh = d.daily_kwh;
  hertz = pos 60;
  ac2_volts_in = pos 0;
  pv_amps_in = d.pv_current;
  pv_volts_in = whole d.pv_input_voltage;
}

read_serial-page : (t : Turn) → IsTurn t → read_serial true t.kernel ≡ inner t.page
unfolding positive inner digits2 digits3
read_serial-page t h =
    let page = h.lays_out in
    let long = length-inner t.page in
    let some_bytes : (length (print_page t.page) == 0) ≡ false =
      ap (λ s. length s == 0) (print_page-inner t.page) in
    read_serial-bytes t.kernel (print_page t.page) (inner t.page) (filter_line-page t.page page)
      h.waits h.brings some_bytes (ap (λ n. n == 0) long) (ap (λ n. positive (pos n)) long)
    ∙ c_string-Printable (inner t.page) (inner-Printable t.page page)

press-keeps :
    (k : Key) (s : Loop) → ((press k s).device ≡ s.device) × ((press k s).inserted ≡ s.inserted)
unfolding press
press-keeps dtr_off s = (refl, refl)
press-keeps dtr_on s = (refl, refl)
press-keeps _ s = (refl, refl)

export-stale :
    (d : Outback) (blank : MeterData ℤ)
    → d.type ≡ outback_none
    → export_meter_data (record d { address = b',' }) blank ≡ stale d blank
unfolding export_meter_data char_int
export-stale d blank e = rw e refl

inner-head : (p : MxPage) → (char_at (inner p) 1 ≡ done b',') × (inner p ≢ [])
unfolding inner char_at
inner-head p = (refl, λ e. cc)

page_step-nonempty :
    (blank : MeterData ℤ) (s : Loop) (str : Text)
    → str ≢ []
    → page_step blank s str ≡ (
        calc_checksum str >>= λ _. parse s.device str >>= λ parsed. done (record s {
          device = parsed.0;
          inserted = s.inserted ++ export_meter_data parsed.0 blank ∷ [];
        }))
unfolding page_step
page_step-nonempty blank s [] n = absurd (n refl)
page_step-nonempty blank s (c ∷ str) n = refl

page_step-refused :
    (blank : MeterData ℤ) (s : Loop) (p : MxPage)
    → s.device.type ≡ outback_none
    → page_step blank s (inner p)
      ≡ done (record s {
        device = record s.device { address = b',' };
        inserted = s.inserted ++ stale s.device blank ∷ [];
      })
page_step-refused blank s p e =
    let (second, some_text) = inner-head p in
    page_step-nonempty blank s (inner p) some_text ∙ elim (calc_checksum_defined (inner p)) [
      | inl (_, (r, e')) ↦ bind-done _ _ e' (
          bind-done _ _ (parse-error s.device (inner p) b',' second (λ a. ground arith)) (
            ap
              (λ m. done (record s {
                device = record s.device { address = b',' };
                inserted = s.inserted ++ m ∷ [];
              }))
              (export-stale s.device blank e)))
      | inr (short, _) ↦ absurd (omega (arith, length-inner p))
    ]

-- Where the port is open, the object has decoded no page yet, and each turn of the loop, with any key that does not end it,
-- brings a whole page of the layout by one read, none of them is decoded: `Serial::Read` drops the LF
-- at the front, so that `parse` finds a comma for the address and refuses the page. A record is stored
-- for each page all the same, with the unit 44, the code of the comma, and the readings that the object
-- had at the start.
pub main-refused :
    (blank : MeterData ℤ) (s : Loop) (turns : List Turn)
    → All IsTurn turns
    → s.device.type ≡ outback_none
    → (s' : Loop) × (main true blank s (map input_of turns) ≡ done s')
      × (s'.inserted ≡ s.inserted ++ map (λ t. stale s.device blank) turns)
unfolding main
main-refused blank s [] h e = (s, refl, sym (append-nil s.inserted))
main-refused blank s (t ∷ turns) h e =
    let s0 = press (key_of t.key) s in
    let (same, stored0) = press-keeps (key_of t.key) s in
    let s1 : Loop = record s0 {
      device = record s0.device { address = b',' };
      inserted = s0.inserted ++ stale s0.device blank ∷ [];
    } in
    let (s', run, stored) = main-refused blank s1 turns h.1 (ap (λ d. d.type) same ∙ e) in
    (
      s',
      rw ((h.0).goes_on) (
          bind-done _ _
            (ap (page_step blank s0) (read_serial-page t h.0)
              ∙ page_step-refused blank s0 t.page (ap (λ d. d.type) same ∙ e))
            run),
      stored
          ∙ ap (λ d. (s0.inserted ++ stale d blank ∷ []) ++ map (λ t. stale d blank) turns) same
          ∙ ap (λ i. (i ++ stale s.device blank ∷ []) ++ map (λ t. stale s.device blank) turns)
              stored0
          ∙ append_assoc s.inserted (stale s.device blank ∷ [])
              (map (λ t. stale s.device blank) turns),
    )

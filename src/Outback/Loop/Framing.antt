-- ===== src/Outback/Loop/Framing.antt =====
-- What `Serial::Read` and `outback::readSerial` leave of a status page.
use powerguru.Prelude.{
  ℕ, ◌≤◌, ◌<◌, ◌≡◌, refl, [], ◌∷◌, ◌++◌, Text, length, arith, if◌then◌else◌, true, false, ◌==◌, ap,
  ◌∙◌, All,
}
use powerguru.Prelude.Int.{pos}
use powerguru.Serial.{Round, other, bytes, filter_line, read, read_loop, is_empty_read, input_text}
use powerguru.Outback.Page.{MxPage, print_page, digits2, digits3}
use powerguru.Outback.Parse.Columns.{IsAddress}
use powerguru.Outback.Loop.{c_string, positive, read_serial}

-- A page that follows the layout: it starts with LF and ends with CR, and each number fits its columns.
pub record IsPage (p : MxPage) : Type 0 where
  pub starts : p.start ≡ 10
  pub known : IsAddress p.address
  pub charger_current : p.charger_current < 100
  pub pv_current : p.pv_current < 100
  pub pv_input_voltage : p.pv_input_voltage < 1000
  pub daily_kwh : p.daily_kwh < 1000
  pub aux_mode : p.aux_mode < 100
  pub error_mode : p.error_mode < 1000
  pub charger_mode : p.charger_mode < 100
  pub battery_voltage : p.battery_voltage < 1000
  pub checksum : p.checksum < 1000
  pub stops : p.stop ≡ 13

-- The bytes between LF and CR.
unfoldable pub inner : MxPage → Text
inner p =
    p.address
    ∷ b','
    ∷ b'0'
    ∷ b'0'
    ∷ b','
    ∷ (digits2 p.charger_current
        ++ b','
          ∷ (digits2 p.pv_current
              ++ b','
                ∷ (digits3 p.pv_input_voltage
                    ++ b','
                      ∷ (digits3 p.daily_kwh
                          ++ b','
                            ∷ b'0'
                            ∷ b'0'
                            ∷ b','
                            ∷ (digits2 p.aux_mode
                                ++ b','
                                  ∷ (digits3 p.error_mode
                                      ++ b','
                                        ∷ (digits2 p.charger_mode
                                            ++ b','
                                              ∷ (digits3 p.battery_voltage
                                                  ++ b','
                                                    ∷ b'0'
                                                    ∷ b'0'
                                                    ∷ b'0'
                                                    ∷ b','
                                                    ∷ b'0'
                                                    ∷ b'0'
                                                    ∷ b'0'
                                                    ∷ b','
                                                    ∷ digits3 p.checksum))))))))

pub print_page-inner : (p : MxPage) → print_page p ≡ p.start ∷ (inner p ++ p.stop ∷ [])
unfolding print_page inner digits2 digits3
print_page-inner p = refl

pub length-inner : (p : MxPage) → length (inner p) ≡ 47
unfolding inner digits2 digits3
length-inner p = refl

abbrev pub IsPrintable : ℕ → Type 0
IsPrintable c = (b',' ≤ c) × (c < 128)

abbrev pub Printable : Text → Type 0
Printable s = All IsPrintable s

pub inner-Printable : (p : MxPage) → IsPage p → Printable (inner p)
unfolding inner digits2 digits3
inner-Printable p h = ground arith

pub filter_line-inner :
    (s : Text) (stop : ℕ) → stop ≡ 13 → Printable s → filter_line (s ++ stop ∷ []) ≡ s
unfolding filter_line
filter_line-inner [] stop e h = rw e refl
filter_line-inner (c ∷ s) stop e h = ground (arith, filter_line-inner s stop e h.1, h.0)

pub c_string-Printable : (s : Text) → Printable s → c_string s ≡ s
unfolding c_string
c_string-Printable [] h = refl
c_string-Printable (c ∷ s) h = ground (arith, c_string-Printable s h.1, h.0)

pub filter_line-page : (p : MxPage) → IsPage p → filter_line (print_page p) ≡ inner p
unfolding filter_line
filter_line-page p h =
    ap filter_line (print_page-inner p)
    ∙ ap (λ c. filter_line (c ∷ (inner p ++ p.stop ∷ []))) h.starts
    ∙ (filter_line-inner (inner p) p.stop h.stops (inner-Printable p h))

-- What the loop gets where one read brings a text, in which something is left.
module _ (kernel : ℕ → Round) (s t : Text) (left : filter_line s ≡ t) where
  read-bytes :
      (kernel 0).wait ≡ other
      → (kernel 0).input ≡ bytes s
      → (length s == 0) ≡ false
      → (length t == 0) ≡ false
      → read true kernel [] ≡ record { count = pos (length t); buf = t }
  unfolding read read_loop is_empty_read input_text
  read-bytes w i l n = rw (w, read_loop) (rw (i, read_loop) (rw (l, left, n) refl))

  pub read_serial-bytes :
      (kernel 0).wait ≡ other
      → (kernel 0).input ≡ bytes s
      → (length s == 0) ≡ false
      → (length t == 0) ≡ false
      → positive (pos (length t)) ≡ true
      → read_serial true kernel ≡ c_string t
  unfolding read_serial
  read_serial-bytes w i l n p =
      ap (λ r. if positive r.count then c_string r.buf else []) (read-bytes w i l n) ∙ rw p refl

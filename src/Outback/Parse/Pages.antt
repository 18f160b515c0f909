-- ===== src/Outback/Parse/Pages.antt =====
-- Status pages that follow `struct outback_mx`, read back by `outback::parse`. `strtol` is called
-- with base 0, so a field with a leading zero is read as an octal number.
use powerguru.Prelude.{
  ℕ, ◌+◌, ◌*◌, ◌/◌, ◌%◌, ◌≤◌, ◌<◌, ◌≡◌, ◌≢◌, ◌↔◌, refl, ◌&&◌, [], ◌∷◌, arith, leb, ◌==◌,
  if◌then◌else◌, Text, ◌⊎◌, ◌∙◌, ap,
}
use powerguru.Prelude.Int.{pos}
use powerguru.Std.Strtol.{
  strtol, signed, magnitude, accumulate, digit_value, is_space, strtol-digit, digit_value-digit,
}
use powerguru.Outback.Device.{Outback, outback_mx, success, done, char_at}
use powerguru.Outback.Page.{digits2, digits3, MxPage, print_page}
use powerguru.Outback.Parse.{parse}
use powerguru.Outback.Parse.Columns.{IsAddress, decoded, parse-decoded}

-- The numbers that two and three digits carry through `strtol`.
abbrev pub Reads2 : ℕ → Type 0
Reads2 n = (n < 100) × (n ≢ 8) × (n ≢ 9)

abbrev pub Reads3 : ℕ → Type 0
Reads3 n = (n < 1000) × (100 ≤ n ⊎ n < 8)

strtol-two :
    (a b : ℕ)
    → a < 10
    → b < 10
    → strtol ((b'0' + a) ∷ (b'0' + b) ∷ []) ≡ pos (if a == 0 && leb 8 b then 0 else 10 * a + b)
unfolding strtol signed magnitude accumulate digit_value is_space
strtol-two a b h k = ground arith

octal3 : ℕ → ℕ → ℕ
octal3 b c = if leb 8 b then 0 else if leb 8 c then b else 8 * b + c

strtol-three :
    (a b c : ℕ)
    → a < 10
    → b < 10
    → c < 10
    → strtol ((b'0' + a) ∷ (b'0' + b) ∷ (b'0' + c) ∷ [])
      ≡ pos (if a == 0 then octal3 b c else 100 * a + 10 * b + c)
unfolding magnitude octal3 accumulate
strtol-three a b c h k l =
    rw (strtol-digit a _ h)
      (ground (arith, digit_value-digit a h, digit_value-digit b k, digit_value-digit c l))

-- Two digits are read back exactly if the number is neither 8 nor 9.
pub strtol-digits2_iff : (n : ℕ) → n < 100 → (strtol (digits2 n) ≡ pos n) ↔ (n ≢ 8) × (n ≢ 9)
unfolding digits2
strtol-digits2_iff n h = ground (arith, strtol-two (n / 10) (n % 10))

-- Three digits are read back exactly if the number has three digits or is below 8.
pub strtol-digits3_iff : (n : ℕ) → n < 1000 → (strtol (digits3 n) ≡ pos n) ↔ ((100 ≤ n) ⊎ (n < 8))
unfolding digits3 octal3
strtol-digits3_iff n h = ground (arith, strtol-three (n / 100) (n / 10 % 10) (n % 10))

-- What the fields of a page must be for `strtol` to read them.
pub record IsReadable (p : MxPage) : Type 0 where
  pub known : IsAddress p.address
  pub charger_current : Reads2 p.charger_current
  pub pv_current : Reads2 p.pv_current
  pub pv_input_voltage : Reads2 (p.pv_input_voltage % 100)
  pub daily_kwh : Reads3 p.daily_kwh
  pub aux_mode : Reads2 p.aux_mode
  pub charger_mode : Reads2 p.charger_mode
  pub battery_voltage : Reads3 p.battery_voltage
  pub checksum : Reads3 p.checksum

-- The object that the code makes of a page. The PV input voltage stands at byte 12 and is read at
-- byte 13, so its first digit is lost.
abbrev pub holding : Outback → MxPage → Outback
holding d p = record d {
  type = outback_mx;
  address = p.address;
  inverter_current = pos 0;
  charge_current = pos p.charger_current;
  pv_current = pos p.pv_current;
  pv_input_voltage = pos (p.pv_input_voltage % 100);
  daily_kwh = pos p.daily_kwh;
  aux_mode = pos p.aux_mode;
  charge_mode = pos p.charger_mode;
  battery_voltage = pos p.battery_voltage;
  checksum = pos p.checksum;
}

reads2 : (n : ℕ) → Reads2 n → strtol (digits2 n) ≡ pos n
reads2 n h = (strtol-digits2_iff n h.0).1 (h.1, h.2)

reads3 : (n : ℕ) → Reads3 n → strtol (digits3 n) ≡ pos n
reads3 n h = (strtol-digits3_iff n h.0).1 h.1

-- What stands at byte 13: the last two digits of the PV input voltage and the comma.
shifted : ℕ → Text
shifted n = (b'0' + n / 10 % 10) ∷ (b'0' + n % 10) ∷ b',' ∷ []

strtol-two_comma :
    (a b : ℕ)
    → a < 10
    → b < 10
    → strtol ((b'0' + a) ∷ (b'0' + b) ∷ b',' ∷ []) ≡ strtol ((b'0' + a) ∷ (b'0' + b) ∷ [])
unfolding magnitude accumulate digit_value
strtol-two_comma a b h k =
    rw (strtol-digit a _ h, strtol-digit a ((b'0' + b) ∷ []) h) (ground arith)

reads_shifted : (n : ℕ) → Reads2 (n % 100) → strtol (shifted n) ≡ pos (n % 100)
unfolding shifted
reads_shifted n h =
    strtol-two_comma (n / 10 % 10) (n % 10) (omega arith) (omega arith)
    ∙ strtol-two (n / 10 % 10) (n % 10) (omega arith) (omega arith)
    ∙ ap pos (ground arith)

print_page-decoded :
    (d : Outback) (p : MxPage)
    → decoded d p.address (print_page p) ≡ record d {
      type = outback_mx;
      address = p.address;
      inverter_current = strtol (b'0' ∷ b'0' ∷ []);
      charge_current = strtol (digits2 p.charger_current);
      pv_current = strtol (digits2 p.pv_current);
      pv_input_voltage = strtol (shifted p.pv_input_voltage);
      daily_kwh = strtol (digits3 p.daily_kwh);
      aux_mode = strtol (digits2 p.aux_mode);
      charge_mode = strtol (digits2 p.charger_mode);
      battery_voltage = strtol (digits3 p.battery_voltage);
      checksum = strtol (digits3 p.checksum);
    }
unfolding print_page digits2 digits3 shifted
print_page-decoded d p = refl

-- Where the address of a page of the layout is known and the numbers that are read have no leading zero
-- (below 8 they may), `parse` reads them back, whatever the first byte of the page is, but for two: of the PV input voltage two digits are left,
-- and the error mode is not read, so that the object keeps its own.
pub parse-print_page :
    (d : Outback) (p : MxPage) → IsReadable p → parse d (print_page p) ≡ done (holding d p, success)
parse-print_page d p h =
    parse-decoded d (print_page p) p.address (unfold char_at print_page in refl) h.known
      (unfold print_page digits2 digits3 in omega arith)
    ∙ ap (λ o. done (o, success))
        (print_page-decoded d p
          ∙ rw (
            strtol-two 0 0 (omega arith) (omega arith),
            reads2 p.charger_current h.charger_current,
            reads2 p.pv_current h.pv_current,
            reads_shifted p.pv_input_voltage h.pv_input_voltage,
            reads3 p.daily_kwh h.daily_kwh,
            reads2 p.aux_mode h.aux_mode,
            reads2 p.charger_mode h.charger_mode,
            reads3 p.battery_voltage h.battery_voltage,
            reads3 p.checksum h.checksum,
          ))

-- ===== src/Outback/Parse/Columns.antt =====
-- What `outback::parse` takes from which column, and when it fails.
use powerguru.Prelude.{
  ℕ, ◌≤◌, ◌<◌, ◌≡◌, ◌≢◌, refl, arith, if◌then◌else◌, none, some, Text, length, take, drop, ◌⊎◌, inl,
  inr,
}
use powerguru.Prelude.Int.{ℤ}
use powerguru.Std.Strtol.{strtol}
use powerguru.Outback.Device.{
  OutbackType, outback_mx, outback_fx, Outback, success, error, done, out_of_range, undefined,
  bind-done, bind-out_of_range, bind-ne-undefined, char_at,
}
use powerguru.Outback.Parse.{
  substr, read_field, is_fx, address_type, read_currents, read_modes, parse,
}

-- The addresses that the code knows: a digit or one of `A` to `K`.
abbrev pub IsAddress : ℕ → Type 0
IsAddress c = (b'0' ≤ c) × (c ≤ b'9') ⊎ (b'A' ≤ c) × (c ≤ b'K')

abbrev column : Text → ℕ → ℕ → ℤ
column packet position count = strtol (take count (drop position packet))

read_field_lem :
    (packet : Text) (position count : ℕ)
    → position ≤ length packet
    → read_field packet position count ≡ done (column packet position count)
unfolding read_field
read_field_lem packet position count h = ground arith

read_field-out_of_range :
    (packet : Text) (position count : ℕ)
    → length packet < position
    → read_field packet position count ≡ out_of_range
unfolding read_field
read_field-out_of_range packet position count h = ground arith

-- The page as an MX charge controller's: the columns that the code reads.
abbrev pub decoded : Outback → ℕ → Text → Outback
decoded d address packet = record d {
  type = outback_mx;
  address = address;
  inverter_current = column packet 3 2;
  charge_current = column packet 6 2;
  pv_current = column packet 9 2;
  pv_input_voltage = column packet 13 3;
  daily_kwh = column packet 16 3;
  aux_mode = column packet 23 2;
  charge_mode = column packet 30 2;
  battery_voltage = column packet 33 3;
  checksum = column packet 45 3;
}

address_type-some : (c : ℕ) → IsAddress c → (t : OutbackType) × (address_type c ≡ some t)
unfolding address_type
address_type-some c (inl h) = (outback_fx, ground arith)
address_type-some c (inr h) = (outback_mx, ground arith)

address_type-none : (c : ℕ) → ¬ (IsAddress c) → address_type c ≡ none
unfolding address_type
address_type-none c h = ground arith

read_currents_mx :
    (d : Outback) (packet : Text)
    → 45 ≤ length packet
    → read_currents packet (record d { type = outback_mx })
      ≡ done (record d {
        type = outback_mx;
        inverter_current = column packet 3 2;
        charge_current = column packet 6 2;
        pv_current = column packet 9 2;
        pv_input_voltage = column packet 13 3;
        daily_kwh = column packet 16 3;
      })
unfolding read_currents is_fx
read_currents_mx d packet size = bind-done _ _ (read_field_lem packet 3 2 (omega arith)) (
    bind-done _ _ (read_field_lem packet 6 2 (omega arith)) (
      bind-done _ _ (read_field_lem packet 9 2 (omega arith)) (
        bind-done _ _ (read_field_lem packet 13 3 (omega arith))
          (bind-done _ _ (read_field_lem packet 16 3 (omega arith)) refl))))

read_modes_mx :
    (d : Outback) (packet : Text)
    → 45 ≤ length packet
    → read_modes packet (record d { type = outback_mx })
      ≡ done (record d {
        type = outback_mx;
        aux_mode = column packet 23 2;
        charge_mode = column packet 30 2;
        battery_voltage = column packet 33 3;
        checksum = column packet 45 3;
      })
unfolding read_modes is_fx
read_modes_mx d packet size = bind-done _ _ (read_field_lem packet 23 2 (omega arith)) (
    bind-done _ _ (read_field_lem packet 30 2 (omega arith)) (
      bind-done _ _ (read_field_lem packet 33 3 (omega arith))
        (bind-done _ _ (read_field_lem packet 45 3 (omega arith)) refl)))

-- A page of 45 bytes and more with a known address is decoded as an MX page, whatever the address says
-- of the device: nine numbers are read from fixed columns, the current of the inverter among them, and
-- every other member stays as it was, the error mode and the voltages and currents of an FX inverter too.
pub parse-decoded :
    (d : Outback) (packet : Text) (address : ℕ)
    → char_at packet 1 ≡ done address
    → IsAddress address
    → 45 ≤ length packet
    → parse d packet ≡ done (decoded d address packet, success)
unfolding parse
parse-decoded d packet address at1 known size =
    let (t, e) = address_type-some address known in
    bind-done _ _ at1 (
      rw e (
        bind-done _ _ (read_currents_mx (record d { address = address }) packet size) (
          bind-done _ _
            (read_modes_mx
              (record d {
                address = address;
                inverter_current = column packet 3 2;
                charge_current = column packet 6 2;
                pv_current = column packet 9 2;
                pv_input_voltage = column packet 13 3;
                daily_kwh = column packet 16 3;
              })
              packet size)
            refl)))

-- With an unknown address the fields stay as they were.
pub parse-error :
    (d : Outback) (packet : Text) (address : ℕ)
    → char_at packet 1 ≡ done address
    → ¬ (IsAddress address)
    → parse d packet ≡ done (record d { address = address }, error)
unfolding parse
parse-error d packet address at1 unknown =
    bind-done _ _ at1 (rw (address_type-none address unknown) refl)

read_field-ne-undefined :
    (packet : Text) (position count : ℕ) → read_field packet position count ≢ undefined
unfolding read_field substr
read_field-ne-undefined packet position count = ground arith

if_fx-ne-undefined :
    (t : OutbackType) (packet : Text) (position count : ℕ) (old : ℤ)
    → (if is_fx t then read_field packet position count else done old) ≢ undefined
if_fx-ne-undefined t packet position count old =
    ground (arith, read_field-ne-undefined packet position count)

read_currents-ne-undefined : (packet : Text) (d : Outback) → read_currents packet d ≢ undefined
unfolding read_currents
read_currents-ne-undefined packet d =
    bind-ne-undefined _ _ (read_field-ne-undefined packet 3 2) λ _.
      bind-ne-undefined _ _ (read_field-ne-undefined packet 6 2) λ _.
        bind-ne-undefined _ _ (read_field-ne-undefined packet 9 2) λ _.
          bind-ne-undefined _ _ (read_field-ne-undefined packet 13 3) λ _.
            bind-ne-undefined _ _ (read_field-ne-undefined packet 16 3)
              λ _. bind-ne-undefined _ _ (if_fx-ne-undefined d.type packet 20 2 _) λ _ e. cc

read_modes-out_of_range :
    (packet : Text) (d : Outback) → length packet < 45 → read_modes packet d ≡ out_of_range
unfolding read_modes
read_modes-out_of_range packet d size =
    bind-out_of_range _ _ (read_field-ne-undefined packet 23 2) λ _.
      bind-out_of_range _ _ (if_fx-ne-undefined d.type packet 13 3 _) λ _.
        bind-out_of_range _ _ (read_field-ne-undefined packet 30 2) λ _.
          bind-out_of_range _ _ (read_field-ne-undefined packet 33 3) λ _.
            bind-out_of_range _ _ (if_fx-ne-undefined d.type packet 37 3 _) λ _.
              bind-out_of_range _ _ (if_fx-ne-undefined d.type packet 13 3 _)
                λ _. rw (read_field-out_of_range packet 45 3 size)

-- A shorter page makes `substr` throw.
pub parse-out_of_range :
    (d : Outback) (packet : Text) (address : ℕ)
    → char_at packet 1 ≡ done address
    → IsAddress address
    → length packet < 45
    → parse d packet ≡ out_of_range
unfolding parse
parse-out_of_range d packet address at1 known size =
    let (t, e) = address_type-some address known in
    bind-done _ _ at1 (
      rw e (
        bind-out_of_range _ _ (read_currents-ne-undefined packet _)
          λ d2. rw (read_modes-out_of_range packet d2 size)))

-- ===== src/Onewire/Temperatures.antt =====
-- What `getTemperature` makes of the text that the kernel shows for a sensor.
use powerguru.Prelude.{
  ℕ, ◌+◌, ◌<◌, ◌^◌, ◌≡◌, ◌≢◌, refl, sym, ap, ◌∙◌, true, false, [], ◌∷◌, ◌++◌, none, some, Text,
  codes, ltb, ◌==◌, if◌then◌else◌, length, length-append, drop, arith,
}
use powerguru.Prelude.Int.{ℤ, pos, pos_part, neg_part, ◌+ℤ◌, ◌*ℤ◌}
use powerguru.Std.Number.{print_int}
use powerguru.Std.Convert.{done, null_pointer, ◌>>=◌, stof}
use powerguru.Std.ReadFloat.{stof-print_int}
use powerguru.Onewire.Device.{FileSystem, Onewire, Sensor, find_sensor, get_value}
use powerguru.Onewire.Reading.{
  Temperature, zero_float, convert_scale, sensor_id, bus_value, bus_temperature, owfs_temperature,
  get_temperature,
}

drop-prefix : (s t : Text) → drop (length s) (s ++ t) ≡ t
drop-prefix [] t = refl
drop-prefix (c ∷ s) t = drop-prefix s t

-- The record for `t` thousandths of a degree Celsius, in the scale of the object.
abbrev pub reading : ℕ → Text → ℤ → Temperature
unfolding ◌+ℤ◌ ◌*ℤ◌
reading scale id t = record {
  id = id;
  temp =
      if scale == b'F'
      then record { mantissa = t *ℤ pos 18 +ℤ pos 320000; places = 4 }
      else record { mantissa = t; places = 3 };
  lowtemp = zero_float;
  hightemp = zero_float;
  scale = scale;
}

bus_value-reading :
    (scale : ℕ) (id head : Text) (t : ℤ)
    → length head ≡ 69
    → pos_part t + neg_part t < 10 ^ 20
    → bus_value scale id (head ++ (print_int t ++ 10 ∷ [])) ≡ done (reading scale id t)
unfolding bus_value convert_scale reading
bus_value-reading scale id head t l h =
    let long : ltb (length (head ++ (print_int t ++ 10 ∷ []))) 69 ≡ false =
      ground (arith, length-append head (print_int t ++ 10 ∷ [])) in
    let behind : drop 69 (head ++ (print_int t ++ 10 ∷ [])) ≡ print_int t ++ 10 ∷ [] =
      ap (λ n. drop n (head ++ (print_int t ++ 10 ∷ []))) (sym l) ∙ drop-prefix head _ in
    let read : stof (drop 69 (head ++ (print_int t ++ 10 ∷ [])))
        ≡ done (record { mantissa = t; places = 0 }) =
      ap stof behind ∙ stof-print_int t h in
    rw (long, read) refl

get_value-some :
    (files : FileSystem) (o : Onewire) (device name text : Text)
    → o.mounted ≡ true
    → device ≢ []
    → files.file (device ++ codes "/" ++ name) ≡ some text
    → get_value files o device name [] ≡ text
unfolding get_value
get_value-some files o [] name text m n e = absurd (n refl)
get_value-some files o (c ∷ device) name text m n e =
    let named : (length (c ∷ device) == 0) ≡ false = ground arith in rw (m, named, e) refl

-- For a sensor of the kernel whose text ends, behind 69 characters, in a number of thousandths of a degree
-- and a line end, the record holds that number, or in Fahrenheit its 1.8 fold and 32, and the id of the
-- sensor.
pub get_temperature-reading :
    (files : FileSystem) (o : Onewire) (device id head : Text) (sensor : Sensor) (t : ℤ)
    → o.mounted ≡ true
    → device ≢ []
    → find_sensor o.sensors device ≡ some sensor
    → sensor.bus ≡ true
    → sensor_id sensor.id ≡ done id
    → files.file (device ++ codes "/" ++ codes "w1_slave") ≡ some (head ++ (print_int t ++ 10 ∷ []))
    → length head ≡ 69
    → pos_part t + neg_part t < 10 ^ 20
    → get_temperature files o device ≡ done (reading o.scale id t)
unfolding get_temperature bus_temperature
get_temperature-reading files o device id head sensor t m n found b i e l h =
    ap
      (λ s. elim s [
        | none ↦ null_pointer
        | some sensor ↦ sensor_id sensor.id >>= λ id.
            if sensor.bus
            then bus_temperature files o device id
            else owfs_temperature files o device id
      ])
      found
    ∙ ap
        (λ r. r >>= λ id.
          if sensor.bus
          then bus_temperature files o device id
          else owfs_temperature files o device id)
        i
    ∙ ap (λ k. if k then bus_temperature files o device id else owfs_temperature files o device id)
        b
    ∙ ap (bus_value o.scale id) (get_value-some files o device (codes "w1_slave") _ m n e)
    ∙ bus_value-reading o.scale id head t l h

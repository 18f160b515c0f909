-- ===== src/Onewire/Found.antt =====
-- What the constructor finds under a path.
use powerguru.Prelude.{
  ◌≡◌, refl, sym, ap, ◌∙◌, Bool, true, false, ◌&&◌, List, [], ◌∷◌, ◌++◌, Option, some, Text, codes,
  if◌then◌else◌, take, drop, Bool-cases, inl, inr, false≢true,
}
use powerguru.Std.Str.{eq_text, eq_text_sound, eq_text_refl}
use powerguru.Onewire.Families.{type_of}
use powerguru.Onewire.Device.{
  Sensor, Onewire, put_sensor, find_sensor, matches, is_bus_char, bus_sensor,
}

abbrev pub bus_directory : Text
bus_directory = codes "/sys/bus/w1/devices"

-- The path of a name, the sensor that it stands for, and whether the directory has the name of a sensor.
abbrev pub path_of : Text → Text
path_of name = codes "/sys/bus/w1/devices/" ++ name

abbrev pub sensor_of : Text → Sensor
sensor_of name = record {
  family = take 2 name;
  id = drop 3 name;
  alias = [];
  device = name;
  type = type_of (take 2 name);
  bus = true;
}

unfoldable pub listed : List Text → Text → Bool
unfolding eq_text matches
listed [] name = false
listed (one ∷ names) name =
    let rest = listed names name in
    if matches is_bus_char one && eq_text one name then true else rest

find_sensor-put_sensor :
    (sensors : List (Text × Sensor)) (key key' : Text) (sensor : Sensor)
    → find_sensor (put_sensor sensors key sensor) key'
      ≡ (if eq_text key key' then some sensor else find_sensor sensors key')
unfolding find_sensor put_sensor
find_sensor-put_sensor [] key key' sensor = refl
find_sensor-put_sensor ((one, old) ∷ sensors) key key' sensor =
    elim (Bool-cases (eq_text one key)) [
      | inl e ↦
          let same = eq_text_sound one key e in
          rw e (elim (Bool-cases (eq_text key key')) [
            | inl f ↦ rw (same, f) refl
            | inr f ↦ rw (same, f) refl
          ])
      | inr e ↦ rw e (elim (Bool-cases (eq_text one key')) [
        | inr f ↦ rw f (find_sensor-put_sensor sensors key key' sensor)
        | inl f ↦ rw f (elim (Bool-cases (eq_text key key')) [
          | inr g ↦ rw g refl
          | inl g ↦
              let same : one ≡ key = eq_text_sound one key' f ∙ sym (eq_text_sound key key' g) in
              absurd (false≢true (sym e ∙ ap (λ t. eq_text t key) same ∙ eq_text_refl key))
        ])
      ])
    ]

eq_text-path_of : (one name : Text) → eq_text (path_of one) (path_of name) ≡ eq_text one name
unfolding eq_text
eq_text-path_of one name = refl

-- What one name adds to the look up of another.
abbrev pub found_with : Text → Text → Option Sensor → Option Sensor
found_with one name before =
    if matches is_bus_char one && eq_text one name then some (sensor_of name) else before

found_with-sensor :
    (one name : Text) (before : Option Sensor)
    → matches is_bus_char one ≡ true
    → (if eq_text (path_of one) (path_of name) then some (bus_sensor one) else before)
      ≡ found_with one name before
unfolding bus_sensor
found_with-sensor one name before m =
    rw (eq_text-path_of one name, m)
      (elim (Bool-cases (eq_text one name)) [
        | inl e ↦ rw e (ap (λ t. some (sensor_of t)) (eq_text_sound one name e))
        | inr e ↦ rw e refl
      ])

pub put_bus :
    (one name : Text) (o : Onewire)
    → o.rootdir ≡ bus_directory
    → matches is_bus_char one ≡ true
    → find_sensor
        (put_sensor o.sensors (o.rootdir ++ codes "/" ++ one) (bus_sensor one))
        (path_of name)
      ≡ found_with one name (find_sensor o.sensors (path_of name))
put_bus one name o r m =
    ap
      (λ d.
        find_sensor (put_sensor o.sensors (d ++ codes "/" ++ one) (bus_sensor one)) (path_of name))
      r
    ∙ find_sensor-put_sensor o.sensors (path_of one) (path_of name) (bus_sensor one)
    ∙ found_with-sensor one name (find_sensor o.sensors (path_of name)) m

pub listed_first :
    (one : Text) (names : List Text) (t : Text) (before after : Option Sensor)
    → after ≡ found_with one t before
    → (if listed names t then some (sensor_of t) else after)
      ≡ (if listed (one ∷ names) t then some (sensor_of t) else before)
unfolding listed
listed_first one names t before after e =
    elim (Bool-cases (matches is_bus_char one && eq_text one t)) [
      | inr f ↦ rw (e, f) refl
      | inl f ↦
          rw (e, f) (elim (Bool-cases (listed names t)) [ inl g ↦ rw g refl | inr g ↦ rw g refl ])
    ]

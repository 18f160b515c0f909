-- ===== src/Onewire/Scan.antt =====
-- What the constructor finds.
use powerguru.Prelude.{
  ◌≤◌, ◌≡◌, refl, sym, ap, ◌∙◌, Bool, true, false, ◌&&◌, List, [], ◌∷◌, ◌++◌, none, some, Text,
  codes, length, take, drop, All, Option-cases, inl, inr, ◌⊎◌,
}
use powerguru.Std.Convert.{done, ◌>>=◌}
use powerguru.Onewire.Families.{type_of}
use powerguru.Onewire.Found.{bus_directory}
use powerguru.Onewire.Device.{
  FileSystem, Sensor, Onewire, get_value, set_value, add_owfs, scan_owfs, scan_bus, scan_mounted,
  scan_kernel, new, blank, matches, is_bus_char, is_owfs_char,
}

-- The object before the scan of the kernel's directory.
abbrev before_bus : Onewire
before_bus = record blank { rootdir = bus_directory }

-- `setValue` at the end of the constructor.
abbrev finish : Onewire → Onewire
unfolding set_value
finish o = set_value [] (codes "/settings/units/temperature_scale") (codes "F") o

and_false : (b : Bool) → (b && false) ≡ false
and_false true = refl
and_false false = refl

module _ (files : FileSystem) where
  add_owfs-unmounted : (name : Text) (o : Onewire) → o.mounted ≡ false → add_owfs files name o ≡ o
  unfolding add_owfs get_value
  add_owfs-unmounted name o e = rw (e, and_false (matches is_owfs_char name)) refl

  scan_owfs-unmounted :
      (names : List Text) (o : Onewire) → o.mounted ≡ false → scan_owfs files names o ≡ o
  unfolding scan_owfs
  scan_owfs-unmounted [] o e = refl
  scan_owfs-unmounted (name ∷ names) o e =
      ap (scan_owfs files names) (add_owfs-unmounted name o e) ∙ scan_owfs-unmounted names o e

  scan_mounted-blank : scan_mounted files blank ≡ blank
  unfolding scan_mounted
  scan_mounted-blank = elim (Option-cases (files.directory (codes "/mnt/1wire"))) [
    | inl e ↦ rw (e, scan_mounted) refl
    | inr (names, e) ↦ rw (e, scan_mounted) (scan_owfs-unmounted names blank refl)
  ]

  new_bus : new files ≡ (
      (elim (files.directory bus_directory) [
        | none ↦ done before_bus
        | some names ↦ scan_bus names before_bus
      ])
      >>= λ o. done (finish o))
  unfolding new scan_kernel
  new_bus = ap (λ o. scan_kernel files o >>= λ o'. done (finish o')) scan_mounted-blank

-- What the constructor makes depends on the names in the kernel's directory alone: the sensors of owfs,
-- for which it looks first, are never found, since no file is read before `_mounted` is set.
pub new-bus_directory :
    (files files' : FileSystem)
    → files.directory (codes "/sys/bus/w1/devices") ≡ files'.directory (codes "/sys/bus/w1/devices")
    → new files ≡ new files'
new-bus_directory files files' e =
    new_bus files
    ∙ ap
        (λ d. (elim d [ none ↦ done before_bus | some names ↦ scan_bus names before_bus ]) >>= λ o.
          done (finish o))
        e
    ∙ sym (new_bus files')

-- A sensor of the kernel: its key is its path, and the rest is read off its name.
pub record IsBusSensor (key : Text) (sensor : Sensor) : Type 0 where
  on_bus : sensor.bus ≡ true
  at_path : key ≡ codes "/sys/bus/w1/devices" ++ codes "/" ++ sensor.device
  its_family : sensor.family ≡ take 2 sensor.device
  its_id : sensor.id ≡ drop 3 sensor.device
  its_type : sensor.type ≡ type_of sensor.family

abbrev pub AllOnBus : List (Text × Sensor) → Type 0
AllOnBus sensors = All (λ entry. IsBusSensor entry.0 entry.1) sensors

-- Every name that the pattern matches has the two digits of its family and a third character.
abbrev pub Named : Text → Type 0
Named name = (matches is_bus_char name ≡ false) ⊎ (3 ≤ length name)

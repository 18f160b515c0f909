-- ===== src/Onewire/Codes.antt =====
-- The codes of families, as the kernel writes them.
use powerguru.Prelude.{
  ◌≡◌, refl, sym, ap, ◌∙◌, Bool, true, false, not, ◌&&◌, ◌||◌, List, [], ◌∷◌, Text, leb, Bool-cases,
  inl, inr, false≢true,
}
use powerguru.Std.Str.{eq_text, eq_text_sound}
use powerguru.Onewire.Families.{Family, ac_voltage, family_table, find_family, type_of}

and_right : (a b : Bool) → (a && b) ≡ true → b ≡ true
and_right true b h = h
and_right false b h = absurd (false≢true h)

-- A code with a small letter, as the kernel writes it, is not in the table.
unfoldable pub has_small_letter : Text → Bool
has_small_letter [] = false
has_small_letter (c ∷ s) = (leb b'a' c && leb c b'z') || has_small_letter s

abbrev all_capital : List (Text × Family) → Bool
unfolding has_small_letter
all_capital [] = true
all_capital ((key, family) ∷ table) = not (has_small_letter key) && all_capital table

find_family-small_letter :
    (table : List (Text × Family)) (code : Text)
    → all_capital table ≡ true
    → has_small_letter code ≡ true
    → (find_family table code).type ≡ ac_voltage
unfolding find_family all_capital
find_family-small_letter [] code h s = refl
find_family-small_letter ((key, family) ∷ table) code h s = elim (Bool-cases (eq_text key code)) [
  | inl e ↦
      let small : has_small_letter key ≡ true =
        ap has_small_letter (eq_text_sound key code e) ∙ s in
      absurd (false≢true (ap (λ b. not b && all_capital table) (sym small) ∙ h))
  | inr e ↦
      rw e (find_family-small_letter table code (and_right (not (has_small_letter key)) _ h) s)
]

-- A sensor of a family whose code has a small letter, as the kernel writes it, is taken for an AC
-- voltage sensor, whatever it is.
pub type_of-small_letter : (code : Text) → has_small_letter code ≡ true → type_of code ≡ ac_voltage
unfolding type_of has_small_letter
type_of-small_letter code s = find_family-small_letter family_table code refl s

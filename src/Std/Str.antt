-- ===== src/Std/Str.antt =====
-- `std::string`: equality, `find`, `rfind`, `substr`. A position that is `npos` is `none`.
use powerguru.Prelude.{
  ℕ, suc, ◌-◌, ◌≡◌, refl, Bool, true, false, ◌&&◌, [], ◌∷◌, List, ◌++◌, Option, none, some, arith,
  ◌==◌, false≢true, if◌then◌else◌, Text, codes,
}

-- Equality of two texts, `==` or `strcmp (…) == 0`.
unfoldable pub eq_text : Text → Text → Bool
eq_text [] [] = true
eq_text [] (d ∷ t) = false
eq_text (c ∷ s) [] = false
eq_text (c ∷ s) (d ∷ t) = c == d && eq_text s t

unfoldable pub starts_with : Text → Text → Bool
starts_with [] s = true
starts_with (c ∷ needle) [] = false
starts_with (c ∷ needle) (d ∷ s) = c == d && starts_with needle s

abbrev pub next_position : Option ℕ → Option ℕ
next_position none = none
next_position (some i) = some (suc i)

-- `s.find (needle, from)`.
unfoldable pub find : Text → Text → ℕ → Option ℕ
unfolding starts_with
find needle [] from = if starts_with needle [] && from == 0 then some 0 else none
find needle (c ∷ s) from =
    let rest = next_position (find needle s (from - 1)) in
    if from == 0 && starts_with needle (c ∷ s) then some 0 else rest

-- `s.rfind (c, npos)` for one character.
unfoldable pub rfind : ℕ → Text → Option ℕ
rfind c [] = none
rfind c (d ∷ s) =
    let rest = rfind c s in
    elim rest [ some i ↦ some (suc i) | none ↦ if d == c then some 0 else none ]

-- What is written piece by piece to an empty stream, or appended to an empty text.
abbrev pub body : List Text → Text
body [] = []
body (piece ∷ pieces) = piece ++ body pieces

unfoldable pub contains : Text → Text → Bool
contains needle s = elim (find needle s 0) [ none ↦ false | some _ ↦ true ]

find_comma : find (codes "b,") (codes "ab,b,") 2 ≡ some 3
unfolding find starts_with
find_comma = refl

pub eq_text_refl : (s : Text) → eq_text s s ≡ true
unfolding eq_text
eq_text_refl [] = refl
eq_text_refl (c ∷ s) = ground (arith, eq_text_refl s)

pub eq_text_sound : (s t : Text) → eq_text s t ≡ true → s ≡ t
unfolding eq_text
eq_text_sound [] [] h = refl
eq_text_sound [] (d ∷ t) h = absurd (false≢true h)
eq_text_sound (c ∷ s) [] h = absurd (false≢true h)
eq_text_sound (c ∷ s) (d ∷ t) h = let ih = eq_text_sound s t in ground arith

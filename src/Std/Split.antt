-- ===== src/Std/Split.antt =====
-- Texts without a character, and texts that are split at it.
use powerguru.Prelude.{
  ℕ, zero, suc, ◌+◌, ◌/◌, ◌%◌, ◌<◌, ◌≡◌, ◌≢◌, refl, ap, ◌∙◌, Bool, true, false, not, ◌&&◌, List, [],
  ◌∷◌, ◌++◌, Text, ltb, ◌==◌, if◌then◌else◌, All, arith, inl, inr, Bool-cases,
}
use powerguru.Prelude.Int.{ℤ, pos, negsuc}
use powerguru.Std.Number.{emit, print_nat, print_int, print_fuel}

-- The character `c` does not stand in the text.
abbrev pub Lacks : ℕ → Text → Type 0
Lacks c s = All (λ d. d ≢ c) s

-- The test of it, for texts that are given.
unfoldable pub lacks : ℕ → Text → Bool
lacks c [] = true
lacks c (d ∷ s) = not (d == c) && lacks c s

pub lacks_sound : (c : ℕ) (s : Text) → lacks c s ≡ true → Lacks c s
unfolding lacks
lacks_sound c [] h = tt
lacks_sound c (d ∷ s) h =
    let rest : lacks c s ≡ true = ground (arith, h) in
    ((λ e. ground (arith, h, e)), lacks_sound c s rest)

-- The parts between the places where `c` stands: one more than these.
abbrev add_front : ℕ → List Text → List Text
add_front d [] = (d ∷ []) ∷ []
add_front d (part ∷ parts) = (d ∷ part) ∷ parts

unfoldable pub split : ℕ → Text → List Text
split c [] = [] ∷ []
split c (d ∷ s) = let rest = split c s in if d == c then [] ∷ rest else add_front d rest

-- The parts, with `c` between them.
unfoldable pub join : ℕ → Text → List Text → Text
join c part [] = part
join c part (next ∷ parts) = part ++ (c ∷ join c next parts)

split-lacking : (c : ℕ) (s : Text) → Lacks c s → split c s ≡ s ∷ []
unfolding split
split-lacking c [] h = refl
split-lacking c (d ∷ s) h =
    let other : (d == c) ≡ false = ground (arith, h.0) in rw (other, split-lacking c s (h.1)) refl

split-append : (c : ℕ) (s t : Text) → Lacks c s → split c (s ++ (c ∷ t)) ≡ s ∷ split c t
unfolding split
split-append c [] t h = let same : (c == c) ≡ true = ground arith in rw same refl
split-append c (d ∷ s) t h =
    let other : (d == c) ≡ false = ground (arith, h.0) in rw (other, split-append c s t (h.1)) refl

-- Parts that lack the character are found again.
pub split-join :
    (c : ℕ) (part : Text) (parts : List Text)
    → Lacks c part
    → All (Lacks c) parts
    → split c (join c part parts) ≡ part ∷ parts
unfolding join
split-join c part [] h hs = split-lacking c part h
split-join c part (next ∷ parts) h hs =
    split-append c part (join c next parts) h
    ∙ ap (λ ps. part ∷ ps) (split-join c next parts (hs.0) (hs.1))

Lacks-emit : (c fuel n : ℕ) (out : Text) → c < b'0' → Lacks c out → Lacks c (emit fuel n out)
unfolding emit
Lacks-emit c zero n out low h = h
Lacks-emit c (suc fuel) n out low h = elim (Bool-cases (ltb n 10)) [
  | inl e ↦ rw e ((λ d. omega (arith, low, d)), h)
  | inr e ↦
      rw e
        (Lacks-emit c fuel (n / 10) ((b'0' + n % 10) ∷ out) low ((λ d. omega (arith, low, d)), h))
]

-- A printed number has digits alone, and a minus.
pub Lacks-print_int : (c : ℕ) (v : ℤ) → c < b'-' → Lacks c (print_int v)
unfolding print_int print_nat
Lacks-print_int c (pos n) low = Lacks-emit c print_fuel n [] (omega (arith, low)) tt
Lacks-print_int c (negsuc n) low =
    ((λ d. omega (arith, low, d)), Lacks-emit c print_fuel (suc n) [] (omega (arith, low)) tt)

-- ===== src/Xantrex/Lookup.antt =====
-- Which items of the default table `XantrexUI::GetItem` finds.
use powerguru.Prelude.{
  ℕ, zero, suc, ◌&&◌, ◌||◌, not, Bool, true, false, ◌≡◌, ◌≢◌, refl, sym, ◌∙◌, ap, List, [], ◌∷◌,
  none, some, Text, get_elem?, arith, inl, inr, Bool-cases,
}
use mathlib.Core.Option.{some-injective}
use powerguru.Menu.Item.{MenuItem}
use powerguru.Xantrex.Calls.{Call, head, information, flag, whole, decimal}
use powerguru.Xantrex.Table.{set_item, default_calls, set_default_values, get_item}
use powerguru.Xantrex.Search.{
  flatten, call_heading, call_item, has_value, stored, is_key, first, item_of, get_item-default,
}

has_key : ℕ → ℕ → List Call → Bool
unfolding is_key
has_key x y [] = false
has_key x y (c ∷ calls) = is_key x y c || has_key x y calls

-- No two calls with a value have the same indices.
is_unique : List Call → Bool
unfolding has_key
is_unique [] = true
is_unique (c ∷ calls) =
    not (has_value c && has_key (call_heading c) (call_item c) calls) && is_unique calls

-- No information line has the indices of a call with a value.
lines_hidden : List Call → List Call → Bool
unfolding has_key
lines_hidden all [] = true
lines_hidden all (information lab x y ∷ calls) = not (has_key x y all) && lines_hidden all calls
lines_hidden all (_ ∷ calls) = lines_hidden all calls

default-is_unique : is_unique (flatten default_calls) ≡ true
unfolding is_unique stored
default-is_unique = refl

default-lines_hidden : lines_hidden (flatten default_calls) (flatten default_calls) ≡ true
unfolding lines_hidden stored
default-lines_hidden = refl

has_key-get_elem? :
    (calls : List Call) (i : ℕ) (c : Call) (x y : ℕ)
    → get_elem? calls i ≡ some c
    → is_key x y c ≡ true
    → has_key x y calls ≡ true
unfolding has_key
has_key-get_elem? [] i c x y e h = cc
has_key-get_elem? (d ∷ calls) zero c x y e h =
    ground (arith, ap (is_key x y) (some-injective _ _ e), h)
has_key-get_elem? (d ∷ calls) (suc i) c x y e h =
    let ih = has_key-get_elem? calls i c x y e h in ground (arith, ih)

key-value : (c : Call) → has_value c ≡ true → is_key (call_heading c) (call_item c) c ≡ true
unfolding is_key stored
key-value c h = rw h (ground arith)

key_inverse :
    (x y : ℕ) (c : Call)
    → is_key x y c ≡ true
    → y ≢ 0
    → (has_value c ≡ true) × (call_heading c ≡ x) × (call_item c ≡ y)
unfolding is_key stored
key_inverse x y c h n = elim (Bool-cases (has_value c)) [
  | inl e ↦ (e, ground arith, ground arith)
  | inr e ↦ absurd (ground arith)
]

not_key :
    (calls : List Call) (x y : ℕ) (d : Call)
    → not (has_value d && has_key (call_heading d) (call_item d) calls) ≡ true
    → has_key x y calls ≡ true
    → y ≢ 0
    → is_key x y d ≡ false
not_key calls x y d u k n = elim (Bool-cases (is_key x y d)) [
  | inl e ↦
      let (v, heading, item) = key_inverse x y d e n in
      let found : has_key (call_heading d) (call_item d) calls ≡ true = rw (heading, item) k in
      absurd (ground (arith, u, v, found))
  | inr e ↦ e
]

first-value :
    (calls : List Call) (i : ℕ) (c : Call)
    → is_unique calls ≡ true
    → get_elem? calls i ≡ some c
    → has_value c ≡ true
    → call_item c ≢ 0
    → first (call_heading c) (call_item c) calls ≡ some c
unfolding first is_unique
first-value [] i c u e v n = cc
first-value (d ∷ calls) zero c u e v n =
    let same : is_key (call_heading c) (call_item c) d ≡ true =
      ap (is_key (call_heading c) (call_item c)) (some-injective _ _ e) ∙ key-value c v in
    rw same e
first-value (d ∷ calls) (suc i) c u e v n =
    let here = has_key-get_elem? calls i c _ _ e (key-value c v) in
    let other = not_key calls _ _ d (ground (arith, u)) here n in
    rw other (first-value calls i c (ground (arith, u)) e v n)

first-none : (x y : ℕ) (calls : List Call) → has_key x y calls ≡ false → first x y calls ≡ none
unfolding first has_key
first-none x y [] h = refl
first-none x y (c ∷ calls) h = elim (Bool-cases (is_key x y c)) [
  | inl e ↦ cc
  | inr e ↦ rw e (first-none x y calls (ground (arith, h, e)))
]

table-lines_hidden :
    (all calls : List Call) (i : ℕ) (lab : Text) (x y : ℕ)
    → lines_hidden all calls ≡ true
    → get_elem? calls i ≡ some (information lab x y)
    → has_key x y all ≡ false
unfolding lines_hidden
table-lines_hidden all [] i lab x y h e = cc
table-lines_hidden all (c ∷ calls) zero lab x y h e =
    let first_line : lines_hidden all (information lab x y ∷ calls) ≡ true =
      ap (λ d. lines_hidden all (d ∷ calls)) (sym (some-injective _ _ e)) ∙ h in
    ground (arith, first_line)
table-lines_hidden all (information _ _ _ ∷ calls) (suc i) lab x y h e =
    table-lines_hidden all calls i lab x y (ground (arith, h)) e
table-lines_hidden all (head _ _ ∷ calls) (suc i) lab x y h e =
    table-lines_hidden all calls i lab x y h e
table-lines_hidden all (flag _ _ _ _ _ ∷ calls) (suc i) lab x y h e =
    table-lines_hidden all calls i lab x y h e
table-lines_hidden all (whole _ _ _ _ _ ∷ calls) (suc i) lab x y h e =
    table-lines_hidden all calls i lab x y h e
table-lines_hidden all (decimal _ _ _ _ _ ∷ calls) (suc i) lab x y h e =
    table-lines_hidden all calls i lab x y h e

-- `GetItem` finds every item of the default table that has a value, under the indices of its call.
pub get_item-value :
    (mi : MenuItem) (i : ℕ) (c : Call)
    → get_elem? (flatten default_calls) i ≡ some c
    → has_value c ≡ true
    → call_item c ≢ 0
    → get_item (set_default_values mi) (call_heading c) (call_item c) ≡ some (set_item c mi)
unfolding item_of
get_item-value mi i c e v n =
    get_item-default mi _ _
    ∙ ap (item_of mi) (first-value (flatten default_calls) i c default-is_unique e v n)

-- `GetItem` finds nothing under the indices of an information line of the default table: the line
-- is stored as item 0 of its heading.
pub get_item-information :
    (mi : MenuItem) (i : ℕ) (lab : Text) (x y : ℕ)
    → get_elem? (flatten default_calls) i ≡ some (information lab x y)
    → get_item (set_default_values mi) x y ≡ none
unfolding item_of
get_item-information mi i lab x y e =
    get_item-default mi x y
    ∙ ap (item_of mi) (
        first-none x y (flatten default_calls)
          (table-lines_hidden _ (flatten default_calls) i lab x y default-lines_hidden e))

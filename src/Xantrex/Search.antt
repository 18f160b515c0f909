-- ===== src/Xantrex/Search.antt =====
-- `XantrexUI::GetItem` on the default table as a search of the calls that fill it.
use powerguru.Prelude.{
  ℕ, ◌==◌, ◌&&◌, Bool, true, false, ◌≡◌, refl, sym, ◌∙◌, ap, List, [], ◌∷◌, ◌++◌, map, Option, none,
  some, Text, if◌then◌else◌, or_else, inl, inr, Bool-cases,
}
use powerguru.Menu.Item.{
  MenuItem, Mval, set_head, set_info, set_bool, set_int, set_float, set_typed, set_all,
}
use powerguru.Xantrex.Calls.{Call, head, information, flag, whole, decimal}
use powerguru.Xantrex.Table.{
  set_item, push_calls, push_rows, default_calls, set_default_values, find_item, get_item,
}

abbrev pub flatten {ℓ} : {A : Type ℓ} → List (List A) → List A
flatten [] = []
flatten (row ∷ rows) = row ++ flatten rows

-- The heading and the item that a call names.
abbrev pub call_heading : Call → ℕ
call_heading (head lab x) = x
call_heading (information lab x y) = x
call_heading (flag lab x y z abbreviation) = x
call_heading (whole lab x y z abbreviation) = x
call_heading (decimal lab x y z abbreviation) = x

abbrev pub call_item : Call → ℕ
call_item (head lab x) = 0
call_item (information lab x y) = y
call_item (flag lab x y z abbreviation) = y
call_item (whole lab x y z abbreviation) = y
call_item (decimal lab x y z abbreviation) = y

abbrev pub has_value : Call → Bool
has_value (flag lab x y z abbreviation) = true
has_value (whole lab x y z abbreviation) = true
has_value (decimal lab x y z abbreviation) = true
has_value _ = false

-- The item index that is stored.
unfoldable pub stored : Call → ℕ
stored c = if has_value c then call_item c else 0

unfoldable pub is_key : ℕ → ℕ → Call → Bool
unfolding stored
is_key x y c = call_heading c == x && stored c == y

unfoldable pub first : ℕ → ℕ → List Call → Option Call
unfolding is_key
first x y [] = none
first x y (c ∷ calls) = let rest = first x y calls in if is_key x y c then some c else rest

unfoldable pub item_of : MenuItem → Option Call → Option MenuItem
item_of mi none = none
item_of mi (some c) = some (set_item c mi)

-- What a call does not set.
abbrev rest_of : MenuItem → Text × (Mval × Mval)
rest_of mi = (mi.display, (mi.minrange, mi.maxrange))

set_item-rest : (c : Call) (mi : MenuItem) → rest_of (set_item c mi) ≡ rest_of mi
unfolding set_item set_head set_info set_bool set_int set_float set_typed set_all
set_item-rest (head lab x) mi = refl
set_item-rest (information lab x y) mi = refl
set_item-rest (flag lab x y z abbreviation) mi = refl
set_item-rest (whole lab x y z abbreviation) mi = refl
set_item-rest (decimal lab x y z abbreviation) mi = refl

abbrev with_rest : MenuItem → Text × (Mval × Mval) → MenuItem
with_rest mi r = record mi { display = r.0; minrange = r.1.0; maxrange = r.1.1 }

-- A call on an item sees nothing else of it.
set_item_cong : (c : Call) (m mi : MenuItem) → rest_of m ≡ rest_of mi → set_item c m ≡ set_item c mi
unfolding set_item set_head set_info set_bool set_int set_float set_typed set_all
set_item_cong (head lab x) m mi e = ap (λ r. set_item (head lab x) (with_rest mi r)) e
set_item_cong (information lab x y) m mi e =
    ap (λ r. set_item (information lab x y) (with_rest mi r)) e
set_item_cong (flag lab x y z abbreviation) m mi e =
    ap (λ r. set_item (flag lab x y z abbreviation) (with_rest mi r)) e
set_item_cong (whole lab x y z abbreviation) m mi e =
    ap (λ r. set_item (whole lab x y z abbreviation) (with_rest mi r)) e
set_item_cong (decimal lab x y z abbreviation) m mi e =
    ap (λ r. set_item (decimal lab x y z abbreviation) (with_rest mi r)) e

key_lem :
    (c : Call) (mi : MenuItem)
    → ((set_item c mi).headidx ≡ call_heading c) × ((set_item c mi).itemidx ≡ stored c)
unfolding set_item set_head set_info set_bool set_int set_float set_typed set_all stored
key_lem (head lab x) mi = (refl, refl)
key_lem (information lab x y) mi = (refl, refl)
key_lem (flag lab x y z abbreviation) mi = (refl, refl)
key_lem (whole lab x y z abbreviation) mi = (refl, refl)
key_lem (decimal lab x y z abbreviation) mi = (refl, refl)

push_calls_lem :
    (m mi : MenuItem) (calls : List Call)
    → rest_of m ≡ rest_of mi
    → ((push_calls m calls).0 ≡ map (λ c. set_item c mi) calls)
      × (rest_of (push_calls m calls).1 ≡ rest_of mi)
unfolding push_calls
push_calls_lem m mi [] e = (refl, e)
push_calls_lem m mi (c ∷ calls) e =
    let h = push_calls_lem (set_item c m) mi calls (set_item-rest c m ∙ e) in
    (
      ap (λ it. it ∷ (push_calls (set_item c m) calls).0) (set_item_cong c m mi e)
          ∙ ap (λ row. set_item c mi ∷ row) h.0,
      h.1,
    )

push_rows_lem :
    (m mi : MenuItem) (rows : List (List Call))
    → rest_of m ≡ rest_of mi
    → push_rows m rows ≡ map (map (λ c. set_item c mi)) rows
unfolding push_rows
push_rows_lem m mi [] e = refl
push_rows_lem m mi (calls ∷ rows) e =
    let h = push_calls_lem m mi calls e in
    ap (λ row. row ∷ push_rows (push_calls m calls).1 rows) h.0
    ∙ ap (λ t. map (λ c. set_item c mi) calls ∷ t)
        (push_rows_lem (push_calls m calls).1 mi rows h.1)

find_item-map :
    (mi : MenuItem) (calls : List Call) (x y : ℕ)
    → find_item (map (λ c. set_item c mi) calls) x y ≡ item_of mi (first x y calls)
unfolding find_item first item_of is_key set_item
find_item-map mi [] x y = refl
find_item-map mi (c ∷ calls) x y =
    let (heading, item) = key_lem c mi in
    let ih = find_item-map mi calls x y in
    elim (Bool-cases (call_heading c == x && stored c == y)) [
      | inl e ↦ rw (heading, item, e) refl
      | inr e ↦ rw (heading, item, e, ih) refl
    ]

first-append :
    (x y : ℕ) (cs ds : List Call) → first x y (cs ++ ds) ≡ or_else (first x y cs) (first x y ds)
unfolding first
first-append x y [] ds = refl
first-append x y (c ∷ cs) ds = elim (Bool-cases (is_key x y c)) [
  | inl e ↦ rw e refl
  | inr e ↦ rw e (first-append x y cs ds)
]

item_of-or_else :
    (mi : MenuItem) (o p : Option Call)
    → or_else (item_of mi o) (item_of mi p) ≡ item_of mi (or_else o p)
unfolding item_of
item_of-or_else mi none p = refl
item_of-or_else mi (some c) p = refl

get_item-map :
    (mi : MenuItem) (rows : List (List Call)) (x y : ℕ)
    → get_item (map (map (λ c. set_item c mi)) rows) x y ≡ item_of mi (first x y (flatten rows))
unfolding get_item first item_of
get_item-map mi [] x y = refl
get_item-map mi (calls ∷ rows) x y =
    ap (λ o. or_else o (get_item (map (map (λ c. set_item c mi)) rows) x y))
      (find_item-map mi calls x y)
    ∙ ap (or_else (item_of mi (first x y calls))) (get_item-map mi rows x y)
    ∙ item_of-or_else mi (first x y calls) (first x y (flatten rows))
    ∙ ap (item_of mi) (sym (first-append x y calls (flatten rows)))

-- `GetItem` on the default table, as a search of the calls.
pub get_item-default :
    (mi : MenuItem) (x y : ℕ)
    → get_item (set_default_values mi) x y ≡ item_of mi (first x y (flatten default_calls))
unfolding set_default_values
get_item-default mi x y =
    ap (λ items. get_item items x y) (push_rows_lem mi mi default_calls refl)
    ∙ get_item-map mi default_calls x y

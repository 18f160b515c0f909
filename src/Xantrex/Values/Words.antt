-- ===== src/Xantrex/Values/Words.antt =====
-- `XantrexUI::GetValues` on the words of a display.
use powerguru.Prelude.{
  ℕ, suc, ◌+◌, ◌≡◌, ◌≢◌, refl, ◌∙◌, ap, List, [], ◌∷◌, ◌++◌, none, some, Text, arith, length, drop,
  drop-append, All, length-append,
}
use powerguru.Std.Str.{rfind}
use powerguru.Xantrex.Values.{values_loop, get_values}

rfind-none : (w : Text) → All (λ c. c ≢ 32) w → rfind 32 w ≡ none
unfolding rfind
rfind-none [] h = refl
rfind-none (c ∷ w) h = rw (rfind-none w h.1) (ground arith)

rfind-last : (s w : Text) → All (λ c. c ≢ 32) w → rfind 32 (s ++ 32 ∷ w) ≡ some (length s)
unfolding rfind
rfind-last [] w h = rw (rfind-none w h) refl
rfind-last (c ∷ s) w h = rw (rfind-last s w h) refl

values_loop-word :
    (fuel : ℕ) (array : List Text) (w : Text)
    → All (λ c. c ≢ 32) w
    → values_loop (suc fuel) array w ≡ (array, [])
unfolding values_loop
values_loop-word fuel array w h =
    ap
      (λ o. elim o [
        | some pos ↦ values_loop fuel (array ++ drop (suc pos) w ∷ []) (drop (suc pos) w)
        | none ↦ (array, [])
      ])
      (rfind-none w h)

values_loop-last :
    (fuel : ℕ) (array : List Text) (s w : Text)
    → All (λ c. c ≢ 32) w
    → values_loop (suc (suc fuel)) array (s ++ 32 ∷ w) ≡ (array ++ w ∷ [], [])
unfolding values_loop
values_loop-last fuel array s w h =
    let str : Text = s ++ 32 ∷ w in
    ap
      (λ o. elim o [
        | some pos ↦ values_loop (suc fuel) (array ++ drop (suc pos) str ∷ []) (drop (suc pos) str)
        | none ↦ (array, [])
      ])
      (rfind-last s w h)
    ∙ ap (λ v. values_loop (suc fuel) (array ++ v ∷ []) v) (drop-append s w 32)
    ∙ values_loop-word fuel (array ++ w ∷ []) w h

-- `GetValues` returns the last word alone, whatever stands before it, and erases its argument; a text
-- without a blank has no value.
pub get_values_lem :
    (s w : Text)
    → All (λ c. c ≢ 32) w
    → (get_values (s ++ 32 ∷ w) ≡ (w ∷ [], [])) × (get_values w ≡ ([], []))
unfolding get_values
get_values_lem s w h =
    let more : length s + suc (length w) ≡ suc (length s + length w) = omega arith in
    (
      ap (λ n. values_loop (suc n) [] (s ++ 32 ∷ w)) (length-append s (32 ∷ w) ∙ more)
          ∙ values_loop-last (length s + length w) [] s w h,
      values_loop-word (length w) [] w h,
    )

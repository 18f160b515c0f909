-- ===== src/Xantrex/Values.antt =====
-- What `XantrexUI` reads from the texts of the display: `CleanUpData`, `GetValue`, `GetValues`, `GetLabel`.
pub mod ReadBack
pub mod Words
use powerguru.Prelude.{
  ℕ, zero, suc, ◌+◌, ◌-◌, ◌==◌, ◌||◌, Bool, true, false, not, List, [], ◌∷◌, ◌++◌, Option, none,
  some, Text, codes, if◌then◌else◌, length, take, drop, or_else,
}
use powerguru.Prelude.Int.{ℤ}
use powerguru.Std.Str.{eq_text, find, rfind}
use powerguru.Std.Number.{atoi}

-- Whether the character behind a blank, `str[i+1]`, is a blank; behind the last stands NUL.
unfoldable pub blank_next : Text → Bool
blank_next [] = false
blank_next (c ∷ str) = c == 32

-- The loop of `CleanUpData`: what it appends to `menudisp`, which it erased before. The argument is
-- another text than `menudisp`, as in every call.
unfoldable pub clean_up_data : Text → Text
unfolding blank_next
clean_up_data [] = []
clean_up_data (c ∷ str) =
    let rest = clean_up_data str in
    if c == 13 || c == 10
    then rest
    else if c == 32
    then (if blank_next str then rest else 32 ∷ rest)
    else c ∷ rest

-- The loop of `GetValue` for `i`, `i + 1` and so on: a blank and the character '0' + i.
unfoldable pub look_for : ℕ → ℕ → Text → Option ℕ
unfolding find
look_for zero i str = none
look_for (suc rounds) i str =
    or_else (find (32 ∷ (b'0' + i) ∷ []) str 0) (look_for rounds (i + 1) str)

-- `pos + 1`: `npos` is the largest number, so 0 follows.
abbrev pub after : Option ℕ → ℕ
after none = 0
after (some pos) = suc pos

-- `pos2 - pos`, where `pos2` is the next blank, or `pos + 4` if there is none.
abbrev pub value_count : ℕ → Option ℕ → ℕ
value_count start none = 4
value_count start (some pos2) = pos2 + 1 - start

-- `GetValue`: eleven rounds, for `i` from 0 to 10. Neither position lies behind the end of the text.
unfoldable pub get_value : Text → Text
unfolding look_for find
get_value str =
    let start = after (look_for 11 0 str) in
    take (value_count start (find (32 ∷ []) str start)) (drop start str)

unfoldable pub get_int_value : Text → ℤ
unfolding get_value atoi
get_int_value str = atoi (get_value str)

unfoldable pub get_bool_value : Text → Bool
unfolding get_value eq_text
get_bool_value str =
    not (eq_text (get_value str) (codes "NO") || eq_text (get_value str) (codes "OFF"))

-- The loop of `GetValues`: the array so far and the text. A search for "-00" from the end finds
-- nothing, so nothing is erased there.
unfoldable pub values_loop : ℕ → List Text → Text → List Text × Text
unfolding rfind
values_loop zero array str = (array, str)
values_loop (suc fuel) array str = elim (rfind 32 str) [
  | some pos ↦ values_loop fuel (array ++ drop (suc pos) str ∷ []) (drop (suc pos) str)
  | none ↦ (array, [])
]

-- `GetValues`, and `str` behind it: each round that finds a blank makes the text shorter.
unfoldable pub get_values : Text → List Text × Text
unfolding values_loop
get_values str = values_loop (suc (length str)) [] str

-- `GetLabel (x)`: what stands before the last blank.
unfoldable pub get_label : Text → Text
unfolding rfind
get_label x = elim (rfind 32 x) [ some pos ↦ take pos x | none ↦ x ]

-- ===== src/Xantrex/Values/ReadBack.antt =====
-- The value that `MenuItem::SetDisplay` prints is the value that `XantrexUI::GetIntValue` reads.
use powerguru.Prelude.{
  ℕ, zero, suc, ◌+◌, ◌-◌, ◌*◌, ◌/◌, ◌%◌, ◌≤◌, ◌<◌, ◌≡◌, ◌≢◌, refl, sym, ◌∙◌, ap, Bool, true, false,
  not, ◌&&◌, [], ◌∷◌, ◌++◌, none, some, Text, arith, ltb, leb, ◌==◌, length, append_assoc, inl, inr,
  Bool-cases, drop-append, or_else, ltb→lt,
}
use powerguru.Prelude.Int.{pos}
use powerguru.Std.Str.{find, starts_with}
use powerguru.Std.Number.{print_int, print_int-one, print_int-two, atoi, atoi-digit}
use powerguru.Std.Strtol.{accumulate, accumulate-digit}
use powerguru.Menu.Item.{MenuItem}
use powerguru.Menu.Display.{set_display_int, pad, repeat, intidx, prefix}
use powerguru.Xantrex.Values.{look_for, get_value, get_int_value}

-- What `GetValue` looks for behind a blank: '0' to '9' and ':'.
abbrev is_mark : ℕ → Bool
is_mark c = leb b'0' c && leb c 58

abbrev starts_marked : Text → Bool
starts_marked [] = false
starts_marked (c ∷ s) = is_mark c

-- No blank stands before a mark.
unfoldable pub is_plain : Text → Bool
is_plain [] = true
is_plain (c ∷ s) = not (c == 32 && starts_marked s) && is_plain s

is_plain-append :
    (s t : Text)
    → is_plain s ≡ true
    → is_plain t ≡ true
    → starts_marked t ≡ false
    → is_plain (s ++ t) ≡ true
unfolding is_plain
is_plain-append [] t hs ht h = ht
is_plain-append (c ∷ []) t hs ht h = ground arith
is_plain-append (c ∷ d ∷ s) t hs ht h =
    let ih = is_plain-append (d ∷ s) t (ground arith) ht h in ground (arith, ih)

is_plain-repeat : (n : ℕ) → (is_plain (repeat n 32) ≡ true) × (starts_marked (repeat n 32) ≡ false)
unfolding is_plain repeat
is_plain-repeat zero = (refl, refl)
is_plain-repeat (suc n) =
    let (plain, start) = is_plain-repeat n in (ground (arith, plain, start), refl)

-- Behind a plain text, the blank before the digit is the first one before a mark.
find-plain :
    (s rest : Text) (a : ℕ)
    → a < 10
    → is_plain s ≡ true
    → find (32 ∷ (b'0' + a) ∷ []) (s ++ 32 ∷ (b'0' + a) ∷ rest) 0 ≡ some (length s)
unfolding find starts_with is_plain
find-plain [] rest a h p = ground arith
find-plain (c ∷ []) rest a h p = ground (arith, find-plain [] rest a h refl)
find-plain (c ∷ d ∷ s) rest a h p = ground (arith, find-plain (d ∷ s) rest a h (ground arith))

find-other :
    (s : Text) (i a b : ℕ)
    → a < 10
    → i < 10
    → b < 10
    → i ≢ a
    → is_plain s ≡ true
    → find (32 ∷ (b'0' + i) ∷ []) (s ++ 32 ∷ (b'0' + a) ∷ (b'0' + b) ∷ []) 0 ≡ none
unfolding find starts_with is_plain
find-other [] i a b ha hi hb n p = ground arith
find-other (c ∷ []) i a b ha hi hb n p = ground (arith, find-other [] i a b ha hi hb n refl)
find-other (c ∷ d ∷ s) i a b ha hi hb n p =
    ground (arith, find-other (d ∷ s) i a b ha hi hb n (ground arith))

-- A text of a display: something plain, a blank and two digits.
look_for-digits :
    (rounds i : ℕ) (s : Text) (a b : ℕ)
    → a < 10
    → b < 10
    → i ≤ a
    → a < i + rounds
    → is_plain s ≡ true
    → look_for rounds i (s ++ 32 ∷ (b'0' + a) ∷ (b'0' + b) ∷ []) ≡ some (length s)
unfolding look_for
look_for-digits zero i s a b ha hb low high p = absurd (omega arith)
look_for-digits (suc rounds) i s a b ha hb low high p =
    let t : Text = s ++ 32 ∷ (b'0' + a) ∷ (b'0' + b) ∷ [] in
    elim (Bool-cases (i == a)) [
      | inl e ↦
          let same : i ≡ a = ground arith in
          ap (λ j. or_else (find (32 ∷ (b'0' + j) ∷ []) t 0) (look_for rounds (i + 1) t)) same
          ∙ ap (λ o. or_else o (look_for rounds (i + 1) t)) (find-plain s ((b'0' + b) ∷ []) a ha p)
      | inr e ↦
          let other : i ≢ a = ground arith in
          ap (λ o. or_else o (look_for rounds (i + 1) t))
            (find-other s i a b ha (omega arith) hb other p)
          ∙ (look_for-digits rounds (i + 1) s a b ha hb (omega arith) (omega arith) p)
    ]

-- No blank follows the digits.
find_blank :
    (s : Text) (a b : ℕ)
    → a < 10
    → b < 10
    → find (32 ∷ []) (s ++ 32 ∷ (b'0' + a) ∷ (b'0' + b) ∷ []) (suc (length s)) ≡ none
unfolding find starts_with
find_blank [] a b ha hb = ground arith
find_blank (c ∷ s) a b ha hb =
    let t : Text = s ++ 32 ∷ (b'0' + a) ∷ (b'0' + b) ∷ [] in
    let ih : find (32 ∷ []) t (suc (suc (length s)) - 1) ≡ none =
      ap (find (32 ∷ []) t) (omega arith) ∙ find_blank s a b ha hb in
    ground (arith, ih)

get_value-digits :
    (s : Text) (a b : ℕ)
    → a < 10
    → b < 10
    → is_plain s ≡ true
    → get_value (s ++ 32 ∷ (b'0' + a) ∷ (b'0' + b) ∷ []) ≡ (b'0' + a) ∷ (b'0' + b) ∷ []
unfolding get_value
get_value-digits s a b ha hb p =
    rw
      (
        look_for-digits 11 0 s a b ha hb (omega arith) (omega arith) p,
        find_blank s a b ha hb,
        drop-append s ((b'0' + a) ∷ (b'0' + b) ∷ []) 32,
      )
      refl

two_digits :
    {a b c d : ℕ}
    → a ≡ b
    → c ≡ d
    → Path Text ((b'0' + a) ∷ (b'0' + c) ∷ []) ((b'0' + b) ∷ (b'0' + d) ∷ [])
two_digits e f = rw (e, f) refl

pad-digits :
    (n : ℕ) → n < 100 → pad 2 b'0' (print_int (pos n)) ≡ (b'0' + n / 10) ∷ (b'0' + n % 10) ∷ []
unfolding pad repeat
pad-digits n h = elim (Bool-cases (ltb n 10)) [
  | inl e ↦
      let small : n < 10 = ltb→lt n 10 e in
      let tens : 0 ≡ n / 10 = omega arith in
      let units : n ≡ n % 10 = omega arith in
      ap (pad 2 b'0') (print_int-one n small) ∙ two_digits tens units
  | inr e ↦ ap (pad 2 b'0') (print_int-two n (ground arith) h)
]

accumulate-two :
    (a b : ℕ) → a < 10 → b < 10 → accumulate 10 0 ((b'0' + a) ∷ (b'0' + b) ∷ []) ≡ a * 10 + b
unfolding accumulate
accumulate-two a b ha hb =
    ground (arith, accumulate-digit 10 0 a ((b'0' + b) ∷ []) ha, accumulate-digit 10 a b [] hb)

atoi-digits : (n : ℕ) → n < 100 → atoi ((b'0' + n / 10) ∷ (b'0' + n % 10) ∷ []) ≡ pos n
atoi-digits n h =
    atoi-digit (n / 10) ((b'0' + n % 10) ∷ []) (omega arith)
    ∙ ap pos (accumulate-two (n / 10) (n % 10) (omega arith) (omega arith) ∙ omega arith)

is_plain-prefix :
    (label : Text) (k : ℕ)
    → is_plain (32 ∷ label) ≡ true
    → is_plain (prefix ++ label ++ repeat k 32) ≡ true
unfolding is_plain
is_plain-prefix label k p =
    let (plain, start) = is_plain-repeat k in
    let whole = is_plain-append (32 ∷ label) (repeat k 32) p plain start in ground (arith, whole)

-- The lines of a display: what stands before the last blank is plain if the label is.
display_shape :
    (item : MenuItem) (label : Text) (n : ℕ)
    → n < 100
    → is_plain (32 ∷ label) ≡ true
    → (s : Text) × (is_plain s ≡ true)
      × ((set_display_int item label (pos n)).display
          ≡ s ++ 32 ∷ (b'0' + n / 10) ∷ (b'0' + n % 10) ∷ [])
unfolding set_display_int pad
display_shape item label n h p =
    let k = intidx - length label - 1 - 1 in
    let front = prefix ++ label in
    let digits : Text = (b'0' + n / 10) ∷ (b'0' + n % 10) ∷ [] in
    (
      front ++ repeat k 32,
      is_plain-prefix label k p,
      ap (λ t. front ++ pad (intidx - length label - 1) 32 (32 ∷ []) ++ t) (pad-digits n h)
          ∙ ap (λ t. t ++ digits) (sym (append_assoc front (repeat k 32) (32 ∷ [])))
          ∙ append_assoc (front ++ repeat k 32) (32 ∷ []) digits,
    )

-- A number of at most two digits that is displayed behind a label is read back from the display, if
-- the label has no digit and no colon at its start or behind a blank.
pub get_int_value-set_display_int :
    (item : MenuItem) (label : Text) (n : ℕ)
    → n < 100
    → is_plain (32 ∷ label) ≡ true
    → get_int_value (set_display_int item label (pos n)).display ≡ pos n
unfolding get_int_value
get_int_value-set_display_int item label n h p =
    let (s, plain, shape) = display_shape item label n h p in
    ap (λ t. atoi (get_value t)) shape
    ∙ ap atoi (get_value-digits s (n / 10) (n % 10) (omega arith) (omega arith) plain)
    ∙ atoi-digits n h

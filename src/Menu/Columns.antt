-- ===== src/Menu/Columns.antt =====
-- The columns of the LCD display in which `MenuItem::SetDisplay` writes the values.
use powerguru.Prelude.{
  ℕ, zero, suc, ◌+◌, ◌-◌, ◌≤◌, ◌<◌, ◌≡◌, refl, ◌∙◌, ap, Bool, true, false, [], ◌∷◌, ◌++◌, Text,
  codes, length, arith, if◌then◌else◌, length-append, inl, inr, Bool-cases, ltb, ltb→lt,
}
use powerguru.Prelude.Int.{pos}
use powerguru.Std.Number.{print_int, print_int-one, print_int-two}
use powerguru.Menu.Item.{MenuItem}
use powerguru.Menu.Display.{repeat, pad, prefix, intidx, boolidx, set_display_int, set_display_bool}

length-repeat : (n c : ℕ) → length (repeat n c) ≡ n
unfolding repeat
length-repeat zero c = refl
length-repeat (suc n) c = ap suc (length-repeat n c)

-- Padding reaches the width, if the text is not longer.
length-pad : (n c : ℕ) (s : Text) → length s ≤ n → length (pad n c s) ≡ n
unfolding pad
length-pad n c s h =
    length-append (repeat (n - length s) c) s ∙ omega (arith, length-repeat (n - length s) c)

length-print_int : (n : ℕ) → n < 100 → length (print_int (pos n)) ≤ 2
length-print_int n h = elim (Bool-cases (ltb n 10)) [
  | inl e ↦ let one = ap length (print_int-one n (ltb→lt n 10 e)) in omega (arith, one)
  | inr e ↦ let two = ap length (print_int-two n (ground arith) h) in omega (arith, two)
]

length-answer : (x : Bool) → length (if x then codes "YES" else codes "NO") ≤ 3
length-answer true = omega arith
length-answer false = omega arith

length-set_display_int :
    (item : MenuItem) (label : Text) (n : ℕ)
    → length label ≤ 34
    → n < 100
    → length (set_display_int item label (pos n)).display ≡ 41
unfolding set_display_int
length-set_display_int item label n h small =
    let gap : Text = pad (intidx - length label - 1) 32 (32 ∷ []) in
    let gap_size = length-pad (intidx - length label - 1) 32 (32 ∷ []) (omega arith) in
    let digits_size = length-pad 2 b'0' (print_int (pos n)) (length-print_int n small) in
    length-append (prefix ++ label ++ gap) (pad 2 b'0' (print_int (pos n)))
    ∙ omega (
      arith,
      length-append (prefix ++ label) gap,
      length-append prefix label,
      gap_size,
      digits_size,
    )

length-set_display_bool :
    (item : MenuItem) (label : Text) (x : Bool)
    → length label ≤ 34
    → length (set_display_bool item label x).display ≡ 41
unfolding set_display_bool
length-set_display_bool item label x h =
    let answer : Text = if x then codes "YES" else codes "NO" in
    let size = length-pad (boolidx - length label) 32 answer (omega (arith, length-answer x)) in
    length-append (prefix ++ label) (pad (boolidx - length label) 32 answer)
    ∙ omega (arith, length-append prefix label, size)

-- Behind a label of at most 34 characters, a number of at most two digits and an answer end in the
-- same column: the line has 37 characters behind the four of the prefix.
pub set_display-columns :
    (item : MenuItem) (label : Text) (n : ℕ) (x : Bool)
    → length label ≤ 34
    → n < 100
    → (length (set_display_int item label (pos n)).display ≡ length prefix + 37)
      × (length (set_display_bool item label x).display ≡ length prefix + 37)
set_display-columns item label n x h small = (
  length-set_display_int item label n h small ∙ omega arith,
  length-set_display_bool item label x h ∙ omega arith,
)

-- ===== src/Network/Packets.antt =====
-- How the packets of a buffer are found.
use powerguru.Prelude.{
  ℕ, zero, suc, ◌+◌, ◌-◌, ◌≤◌, ◌<◌, ◌==◌, leb, ◌≡◌, ◌≢◌, refl, sym, ap, ◌∙◌, true, false, List, [],
  ◌∷◌, ◌++◌, append_assoc, append-nil, none, some, Text, length, length-append, map, All, arith,
  ==_iff,
}
use powerguru.Std.Run.{done}
use powerguru.Network.Receive.{inbuf, filled, c_split, cut, is_xml, take_packet, split_loop}

-- Texts that are sent one behind the other, each with its NUL, before the rest.
unfoldable pub joined : List Text → Text → Text
joined [] rest = rest
joined (s ∷ texts) rest = s ++ (0 ∷ joined texts rest)

-- A message of XML that fits the memory that a packet is copied to.
pub record IsMessage (room : ℕ) (s : Text) : Type 0 where
  pub starts : is_xml s ≡ true
  pub no_nul : All (λ c. c ≢ 0) s
  pub fits : length s + 1 ≤ room

pub c_split-nul : (s rest : Text) → All (λ c. c ≢ 0) s → c_split (s ++ (0 ∷ rest)) ≡ some (s, rest)
unfolding c_split
c_split-nul [] rest h = refl
c_split-nul (c ∷ s) rest h =
    let differs : (c == 0) ≡ false = ground (arith, h.0) in
    rw (differs, c_split-nul s rest h.1) refl

pub filled-append :
    (size : ℕ) (s t : Text)
    → length s ≤ size
    → filled size (s ++ t) ≡ s ++ filled (size - length s) t
unfolding filled
filled-append size [] t h = ap (λ n. filled n t) (omega arith)
filled-append zero (c ∷ s) t h = absurd (omega arith)
filled-append (suc size) (c ∷ s) t h =
    ap (λ r. c ∷ r) (filled-append size s t (omega arith) ∙ ap (λ n. s ++ filled n t) (omega arith))

filled_three : (n : ℕ) → 3 ≤ n → filled n [] ≡ 0 ∷ 0 ∷ 0 ∷ filled (n - 3) []
unfolding filled
filled_three zero h = absurd (omega arith)
filled_three (suc zero) h = absurd (omega arith)
filled_three (suc (suc zero)) h = absurd (omega arith)
filled_three (suc (suc (suc n))) h = ap (λ m. 0 ∷ 0 ∷ 0 ∷ filled m []) (omega arith)

pub filled-part :
    (s : Text)
    → length s + 3 ≤ inbuf
    → filled inbuf s ≡ joined (s ∷ []) (0 ∷ 0 ∷ filled (inbuf - length s - 3) [])
unfolding joined
filled-part s h =
    ap (filled inbuf) (sym (append-nil s))
    ∙ filled-append inbuf s [] (omega arith)
    ∙ ap (λ r. s ++ r) (filled_three (inbuf - length s) (omega arith))

-- Behind the bytes of a read there are at least two zeros.
pub filled-zeros : (n : ℕ) → 2 ≤ n → filled n [] ≡ 0 ∷ 0 ∷ filled (n - 2) []
unfolding filled
filled-zeros zero h = absurd (omega arith)
filled-zeros (suc zero) h = absurd (omega arith)
filled-zeros (suc (suc n)) h = ap (λ m. 0 ∷ 0 ∷ filled m []) (omega arith)

filled-bytes :
    (s : Text)
    → length s + 2 ≤ inbuf
    → filled inbuf s ≡ s ++ (0 ∷ 0 ∷ filled (inbuf - length s - 2) [])
filled-bytes s h =
    ap (filled inbuf) (sym (append-nil s))
    ∙ filled-append inbuf s [] (omega arith)
    ∙ ap (λ r. s ++ r) (filled-zeros (inbuf - length s) (omega arith))

pub joined-append : (texts : List Text) (s t : Text) → joined texts s ++ t ≡ joined texts (s ++ t)
unfolding joined
joined-append [] s t = refl
joined-append (text ∷ texts) s t =
    append_assoc text (0 ∷ joined texts s) t ∙ ap (λ r. text ++ (0 ∷ r)) (joined-append texts s t)

pub length-joined : (texts : List Text) (rest : Text) → length texts ≤ length (joined texts rest)
unfolding joined
length-joined [] rest = omega arith
length-joined (s ∷ texts) rest =
    omega (arith, length-joined texts rest, length-append s (0 ∷ joined texts rest))

pub eq_false : (a b : ℕ) → a ≢ b → (a == b) ≡ false
eq_false a b n = ground arith

pub leb-true : (a b : ℕ) → a ≤ b → leb a b ≡ true
leb-true a b h = ground arith

pub filled-joined :
    (texts : List Text)
    → length (joined texts []) + 2 ≤ inbuf
    → filled inbuf (joined texts [])
      ≡ joined texts (0 ∷ 0 ∷ filled (inbuf - length (joined texts []) - 2) [])
filled-joined texts h = filled-bytes (joined texts []) h ∙ joined-append texts [] _

pub split_first :
    (text : Text) (texts : List Text) (rest : Text)
    → All (λ c. c ≢ 0) text
    → c_split (joined (text ∷ texts) rest) ≡ some (text, joined texts rest)
unfolding joined
split_first text texts rest n = c_split-nul text (joined texts rest) n

pub more : (a b c : ℕ) {k l : ℕ} → k ≡ a + suc l → l ≡ b + suc c → k ≢ a + 1
more a b c e f = λ g. omega arith

pub first_packet :
    (text : Text) (texts : List Text)
    → length (joined (text ∷ texts) []) + 2 ≤ inbuf
    → All (λ c. c ≢ 0) text
    → c_split (filled inbuf (joined (text ∷ texts) []))
      ≡ some
          (text, joined texts (0 ∷ 0 ∷ filled (inbuf - length (joined (text ∷ texts) []) - 2) []))
first_packet text texts h n =
    ap c_split (filled-joined (text ∷ texts) h) ∙ split_first text texts _ n

pub joined_one : (text : Text) → joined (text ∷ []) [] ≡ text ++ 0 ∷ []
unfolding joined
joined_one text = refl

pub length-one : (text : Text) → length (joined (text ∷ []) []) ≡ length text + 1
unfolding joined
length-one text = length-append text (0 ∷ [])

pub single_length : (text : Text) → (length (text ++ 0 ∷ []) == length text + 1) ≡ true
single_length text = (==_iff _ _).1 (length-append text (0 ∷ []))

module _ (room : ℕ) where
  -- Each text is a packet, and the loop stops at the zeros behind them.
  c_split-joined :
      (texts : List Text) (rest : Text)
      → All (IsMessage room) texts
      → (p : Text × Text) × (c_split (joined texts (0 ∷ rest)) ≡ some p)
  unfolding joined c_split
  c_split-joined [] rest h = (_, refl)
  c_split-joined (s ∷ texts) rest h = (_, c_split-nul s (joined texts (0 ∷ rest)) h.0.no_nul)

  take_packet-message :
      (s rest : Text) → IsMessage room s → take_packet room none (s ++ (0 ∷ rest)) ≡ done (s, rest)
  unfolding take_packet
  take_packet-message s rest h =
      let small : leb (length s + 1) room ≡ true = ground (arith, h.fits) in
      rw (c_split-nul s rest h.no_nul, small, take_packet) refl

  pub split_loop-joined :
      (fuel : ℕ) (texts msgs : List Text) (rest : Text)
      → 1 ≤ room
      → length texts < fuel
      → All (IsMessage room) texts
      → split_loop fuel room none (joined texts (0 ∷ 0 ∷ rest)) msgs
        ≡ done (msgs ++ map cut texts, 0 ∷ rest)
  unfolding split_loop take_packet joined c_split is_xml
  split_loop-joined zero texts msgs rest r f h = absurd (omega arith)
  split_loop-joined (suc fuel) [] msgs rest r f h =
      let small : leb 1 room ≡ true = ground arith in
      rw small (ap (λ m. done (m, 0 ∷ rest)) (sym (append-nil msgs)))
  split_loop-joined (suc fuel) (s ∷ texts) msgs rest r f h =
      let (p, found) = c_split-joined texts (0 ∷ rest) h.1 in
      rw (take_packet-message s (joined texts (0 ∷ 0 ∷ rest)) h.0, h.0.starts, found)
        (split_loop-joined fuel texts (msgs ++ cut s ∷ []) rest r (omega arith) h.1
          ∙ ap (λ m. done (m, 0 ∷ rest)) (append_assoc msgs (cut s ∷ []) (map cut texts)))

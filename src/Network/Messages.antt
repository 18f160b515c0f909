-- ===== src/Network/Messages.antt =====
-- How the bytes of a read become messages.
use powerguru.Prelude.{
  ℕ, zero, suc, ◌+◌, ◌-◌, ◌≤◌, ◌<◌, ◌==◌, leb, ◌≡◌, ◌≢◌, refl, sym, ap, ◌∙◌, true, false, List, [],
  ◌∷◌, ◌++◌, Option, none, some, Text, length, length-append, map, All, arith,
}
use powerguru.Std.Run.{done}
use powerguru.Std.Str.{rfind}
use powerguru.Std.Split.{Lacks}
use powerguru.Commands.Elements.{take-append}
use powerguru.Outback.Device.{success}
use powerguru.Network.Device.{Tcpip, interrupted, ready, is_positive}
use powerguru.Network.Receive.{
  inbuf, filled, c_split, cut, split_loop, split_data, bytes, again, Arrival, anydata_loop, anydata,
}
use powerguru.Network.Packets.{
  joined, joined_one, length-one, filled-part, IsMessage, c_split-nul, length-joined, eq_false,
  leb-true, filled-joined, more, first_packet, single_length, split_loop-joined,
}

module _ (room : ℕ) where
  several_differ :
      (text text' : Text) (texts : List Text)
      → (length (joined (text ∷ text' ∷ texts) []) == length text + 1) ≡ false
  unfolding joined
  several_differ text text' texts = eq_false _ _ (
      more (length text) (length text') (length (joined texts []))
        (length-append text (0 ∷ text' ++ (0 ∷ joined texts [])))
        (length-append text' (0 ∷ joined texts [])))

  -- One text with its NUL takes the short way, whatever it starts with.
  split_data-single :
      (text : Text)
      → All (λ c. c ≢ 0) text
      → length text + 1 ≤ room
      → length text + 3 ≤ inbuf
      → split_data room none (text ++ 0 ∷ []) []
        ≡ done (record { code = success; msgs = cut text ∷ []; leftover = none })
  unfolding split_data
  split_data-single text n f l =
      let first =
        ap c_split (ap (filled inbuf) (sym (joined_one text)))
        ∙ first_packet text [] (omega (arith, length-one text)) n in
      let small : leb (length text + 1) room ≡ true = leb-true _ _ f in
      rw (first, single_length text, small, split_data) refl

  -- The messages of one read; one message alone takes the short way.
  pub split_data-joined :
      (text : Text) (texts : List Text)
      → length (joined (text ∷ texts) []) + 2 ≤ inbuf
      → All (IsMessage room) (text ∷ texts)
      → split_data room none (joined (text ∷ texts) []) []
        ≡ done (record { code = success; msgs = map cut (text ∷ texts); leftover = none })
  unfolding split_data c_split
  split_data-joined text [] l h =
      ap (λ b. split_data room none b []) (joined_one text)
      ∙ split_data-single text h.0.no_nul h.0.fits (omega (arith, length-one text))
  split_data-joined text (text' ∷ texts) l h =
      let first = first_packet text (text' ∷ texts) l h.0.no_nul in
      let bound : length (text ∷ text' ∷ texts) < inbuf + 1 =
        omega (arith, length-joined (text ∷ text' ∷ texts) []) in
      let looped =
        ap (λ b. split_loop (inbuf + 1) room none b []) (filled-joined (text ∷ text' ∷ texts) l)
        ∙ split_loop-joined room (inbuf + 1) (text ∷ text' ∷ texts) [] _ (omega (arith, h.0.fits))
            bound h in
      rw (first, several_differ text text' texts, looped, split_data) refl

  -- The first part of a message that is not there as a whole.
  split_data-part :
      (part : Text)
      → IsMessage room part
      → length part + 3 ≤ inbuf
      → split_data room none part []
        ≡ done (record { code = success; msgs = cut part ∷ []; leftover = none })
  unfolding split_data c_split joined
  split_data-part part h l =
      let zeros : filled inbuf part
          ≡ joined (part ∷ []) (0 ∷ 0 ∷ filled (inbuf - length part - 3) []) =
        filled-part part l in
      let first : c_split (filled inbuf part)
          ≡ some (part, 0 ∷ 0 ∷ filled (inbuf - length part - 3) []) =
        ap c_split zeros ∙ c_split-nul part _ h.no_nul in
      let longer : (length part == length part + 1) ≡ false = eq_false _ _ (omega arith) in
      let looped =
        ap (λ b. split_loop (inbuf + 1) room none b []) zeros
        ∙ split_loop-joined room (inbuf + 1) (part ∷ []) [] _ (omega (arith, h.fits)) (omega arith)
            (h, tt) in
      rw (first, longer, looped, split_data) refl

-- The bytes that arrive, from a round on and with the rounds that are left: in one of them, and up to
-- then the call is made again.
pub data Arrives (kernel : ℕ → Arrival) (s : Text) : ℕ → ℕ → Type 0 where
  now :
      {i left : ℕ}
      → (kernel i).select ≡ ready
      → (kernel i).read ≡ bytes s
      → Arrives kernel s i (suc left)
  interrupted_select :
      {i left : ℕ}
      → (kernel i).select ≡ interrupted
      → Arrives kernel s (i + 1) left
      → Arrives kernel s i (suc left)
  read_again :
      {i left : ℕ}
      → (kernel i).select ≡ ready
      → (kernel i).read ≡ again
      → Arrives kernel s (i + 1) left
      → Arrives kernel s i (suc left)

module _ (room : ℕ) (kernel : ℕ → Arrival) (leftover : Option Text) (msgs : List Text) where
  anydata_loop-Arrives :
      (s : Text) (retries i : ℕ)
      → Arrives kernel s i retries
      → anydata_loop retries i room kernel leftover msgs ≡ split_data room leftover s msgs
  unfolding anydata_loop
  anydata_loop-Arrives s zero i h = elim h [ ]
  anydata_loop-Arrives s (suc retries) i (now e f) =
      rw (e, anydata_loop) (rw (f, anydata_loop) refl)
  anydata_loop-Arrives s (suc retries) i (interrupted_select e rest) =
      rw (e, anydata_loop) (anydata_loop-Arrives s retries (i + 1) rest)
  anydata_loop-Arrives s (suc retries) i (read_again e f rest) =
      rw (e, anydata_loop) (rw (f, anydata_loop) (anydata_loop-Arrives s retries (i + 1) rest))

anydata_open :
    (room : ℕ) (kernel : ℕ → Arrival) (o : Tcpip) (leftover : Option Text) (msgs : List Text)
    → is_positive o.sockfd ≡ true
    → anydata room kernel o leftover msgs ≡ anydata_loop 10 0 room kernel leftover msgs
unfolding anydata
anydata_open room kernel o leftover msgs e = rw e refl

-- A message without a line end, or what stands before and behind its last one.
pub data Message : Type 0 where
  plain : Text → Message
  ended : Text → Text → Message

abbrev pub text_of : Message → Text
text_of (plain text) = text
text_of (ended text after) = text ++ (10 ∷ after)

-- What stands before the last line end, or the whole text where there is none.
abbrev pub kept : Message → Text
kept (plain text) = text
kept (ended text after) = text

abbrev pub IsLast : Message → Type 0
IsLast (plain text) = Lacks 10 text
IsLast (ended text after) = Lacks 10 after

rfind-none : (s : Text) → Lacks 10 s → rfind 10 s ≡ none
unfolding rfind
rfind-none [] h = refl
rfind-none (c ∷ s) h = rw (rfind-none s h.1) (ground (arith, h.0))

rfind-ended : (s after : Text) → Lacks 10 after → rfind 10 (s ++ (10 ∷ after)) ≡ some (length s)
unfolding rfind
rfind-ended [] after h = rw (rfind-none after h) refl
rfind-ended (c ∷ s) after h = rw (rfind-ended s after h) refl

cut-kept : (m : Message) → IsLast m → cut (text_of m) ≡ kept m
unfolding cut
cut-kept (plain text) h = rw (rfind-none text h, cut) refl
cut-kept (ended text after) h = rw (rfind-ended text after h, cut) (take-append text (10 ∷ after))

map-cut-kept : (ms : List Message) → All IsLast ms → map cut (map text_of ms) ≡ map kept ms
map-cut-kept [] h = refl
map-cut-kept (m ∷ ms) h = λ i. cut-kept m h.0 i ∷ map-cut-kept ms h.1 i

-- Messages of XML that were sent one behind the other, each with its NUL, and that one of ten reads
-- brings, are told apart in their order, and nothing is left over, where the memory of a packet is large
-- enough. Each is cut at its last line end, so that a message of several lines loses what stands behind
-- it, and one without a line end stays whole.
pub anydata-joined :
    (room : ℕ) (kernel : ℕ → Arrival) (o : Tcpip) (m : Message) (ms : List Message)
    → let texts = map text_of (m ∷ ms) in
      is_positive o.sockfd ≡ true
      → All IsLast (m ∷ ms)
      → All (IsMessage room) texts
      → length (joined texts []) + 2 ≤ inbuf
      → Arrives kernel (joined texts []) 0 10
      → anydata room kernel o none []
        ≡ done (record { code = success; msgs = map kept (m ∷ ms); leftover = none })
anydata-joined room kernel o m ms e c h l a =
    let texts = map text_of (m ∷ ms) in
    anydata_open room kernel o none [] e
    ∙ anydata_loop-Arrives room kernel none [] (joined texts []) 10 0 a
    ∙ split_data-joined room (text_of m) (map text_of ms) l h
    ∙ ap (λ msgs. done (record { code = success; msgs = msgs; leftover = none }))
        (map-cut-kept (m ∷ ms) c)

-- A message that two reads bring is not put together again: each part is taken for a message.
pub anydata-parts :
    (room : ℕ) (kernel kernel' : ℕ → Arrival) (o : Tcpip) (part part' : Text)
    → is_positive o.sockfd ≡ true
    → IsMessage room part
    → length part + 3 ≤ inbuf
    → All (λ c. c ≢ 0) part'
    → length part' + 1 ≤ room
    → length part' + 3 ≤ inbuf
    → Arrives kernel part 0 10
    → Arrives kernel' (part' ++ 0 ∷ []) 0 10
    → (anydata room kernel o none []
        ≡ done (record { code = success; msgs = cut part ∷ []; leftover = none }))
      × (anydata room kernel' o none []
          ≡ done (record { code = success; msgs = cut part' ∷ []; leftover = none }))
anydata-parts room kernel kernel' o part part' e h l n f l' a a' = (
  anydata_open room kernel o none [] e
      ∙ anydata_loop-Arrives room kernel none [] part 10 0 a
      ∙ split_data-part room part h l,
  anydata_open room kernel' o none [] e
      ∙ anydata_loop-Arrives room kernel' none [] (part' ++ 0 ∷ []) 10 0 a'
      ∙ split_data-single room part' n f l',
)

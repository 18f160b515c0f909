-- ===== src/Xantrex/Meters/Walk.antt =====
-- The two loops of `XantrexUI::PollMeters`: which displays they read, and what they store.
use powerguru.Prelude.{
  ℕ, suc, ◌+◌, ◌≤◌, ◌≡◌, refl, ◌∙◌, ap, true, false, List, [], ◌∷◌, Text, arith, length,
}
use powerguru.Prelude.Int.{ℤ}
use powerguru.Std.Run.{done, bind-done}
use powerguru.Std.Convert.{Decimal}
use powerguru.Serial.{Round}
use powerguru.Database.{MeterData}
use powerguru.Outback.Loop.{read_serial}
use powerguru.Menu.Item.{MenuItem}
use powerguru.Xantrex.Panel.{Panel, menu_item_minus, menu_item_plus}
use powerguru.Xantrex.Panel.Route.{Pressed, Seen}
use powerguru.Xantrex.Panel.Goto.{has_item, IsAt, menu_item_minus_lem, menu_item_plus_lem}
use powerguru.Xantrex.Meters.{down_loop, up_loop, down_step, up_step}
use powerguru.Xantrex.Meters.Items.{
  Meter, place, place-positive, At, get_item-meter, down_note, up_note, down_step-meter,
  up_step-meter,
}

-- What the display shows in the read with a number.
abbrev pub shown : (ℕ → ℕ → Round) → ℕ → Text
shown port n = read_serial true (port n)

-- The notes of one meter after the other, each from the read with the number beside it.
unfoldable pub down_notes : (ℕ → Text) → List Meter → List ℕ → MeterData Decimal → MeterData Decimal
down_notes texts (m ∷ ms) (n ∷ ns) d = down_notes texts ms ns (down_note m (texts n) d)
down_notes texts _ _ d = d

unfoldable pub up_notes :
    (ℕ → Text) → ℤ → List Meter → List ℕ → MeterData Decimal → MeterData Decimal
up_notes texts h (m ∷ ms) (n ∷ ns) d = up_notes texts h ms ns (up_note h m (texts n) d)
up_notes texts h _ _ d = d

-- The numbers grow, from `low` on and below `high`.
abbrev pub InOrder : ℕ → List ℕ → ℕ → Type 0
InOrder low [] high = low ≤ high
InOrder low (n ∷ ns) high = (low ≤ n) × InOrder (suc n) ns high

-- Each meter is the next below, or above, the one before; the first is next to item `k`.
abbrev pub Descends : ℕ → List Meter → Type 0
Descends k [] = Unit
Descends k (m ∷ ms) = (k + 1 ≡ place m) × Descends (place m) ms

abbrev pub Ascends : ℕ → List Meter → Type 0
Ascends k [] = Unit
Ascends k (m ∷ ms) = (k ≡ place m + 1) × Ascends (place m) ms

abbrev pub last_place : ℕ → List Meter → ℕ
last_place k [] = k
last_place k (m ∷ ms) = last_place (place m) ms

found_meter :
    {mi : MenuItem} {k : ℕ} (ui : Panel) (m : Meter)
    → At mi k ui
    → has_item ui.items ui.menuheading (place m) ≡ true
found_meter {mi} ui m a = rw (a.default_items, a.heading, get_item-meter mi m) refl

-- What a press of the buttons leaves of the place.
arrived :
    {mi : MenuItem} {k key times y : ℕ} {ui ui' : Panel} (m : Meter)
    → At mi k ui
    → Pressed key times ui ui'
    → IsAt ui.menuheading y ui'
    → y ≡ place m
    → At mi (place m) ui'
arrived m a p at e = record {
  default_items = p.same_items ∙ a.default_items;
  heading = at.0 ∙ a.heading;
  item = at.1 ∙ e;
  still_open = p.still_open;
}

module _ (port : ℕ → ℕ → Round) (mi : MenuItem) where
  -- One step leads to a meter, and shows the read with the number `n`, the last one.
  pub record Step (m : Meter) (ui ui' : Panel) (n : ℕ) : Type 0 where
    pub arrives : At mi (place m) ui'
    pub displays : ui'.menudisp ≡ shown port n
    pub later : ui.reads ≤ n
    pub last : suc n ≡ ui'.reads

  step_lem :
      {key times : ℕ} {m : Meter} {ui ui' : Panel}
      → At mi (place m) ui'
      → Pressed key times ui ui'
      → 1 ≤ times
      → Seen port ui'
      → (n : ℕ) × Step m ui ui' n
  unfolding Seen
  step_lem a p low (n, last, displays) = (
    n,
    record {
      arrives = a;
      displays = displays;
      later = omega (arith, p.all_read, last);
      last = last;
    },
  )

  pub down_one :
      (k : ℕ) (m : Meter) (ui : Panel)
      → At mi k ui
      → k + 1 ≡ place m
      → (ui' : Panel) × (n : ℕ) × (menu_item_minus port ui ≡ done ui') × Step m ui ui' n
  down_one k m ui a e =
      let next : ui.menuitem + 1 ≡ place m = ap (λ i. i + 1) a.item ∙ e in
      let (ui', times, run, p, low, _, at, seen) =
        menu_item_minus_lem port ui a.still_open (rw next (found_meter ui m a)) in
      let (n, step) = step_lem (arrived m a p at next) p low seen in (ui', n, run, step)

  up_one :
      (k : ℕ) (m : Meter) (ui : Panel)
      → At mi k ui
      → k ≡ place m + 1
      → (ui' : Panel) × (n : ℕ) × (menu_item_plus port ui ≡ done ui') × Step m ui ui' n
  up_one k m ui a e =
      let before : ui.menuitem ≡ place m + 1 = a.item ∙ e in
      let (ui', times, run, p, at, seen, low, _) =
        menu_item_plus_lem port ui (place m) a.still_open (place-positive m) before
          (found_meter ui m a) in
      let (n, step) = step_lem (arrived m a p at refl) p low seen in (ui', n, run, step)

  -- Behind the loop: the meters were read in the order of the way.
  pub record Walked (k : ℕ) (ms : List Meter) (ns : List ℕ) (ui ui' : Panel) : Type 0 where
    pub arrives : At mi (last_place k ms) ui'
    pub in_order : InOrder ui.reads ns ui'.reads
    pub each_once : length ns ≡ length ms

  walk_on :
      {k : ℕ} {m : Meter} {ms : List Meter} {n : ℕ} {ns : List ℕ} {ui ui1 ui' : Panel}
      → Step m ui ui1 n
      → Walked (place m) ms ns ui1 ui'
      → Walked k (m ∷ ms) (n ∷ ns) ui ui'
  walk_on {ns = ns} {ui' = ui'} s w = record {
    arrives = w.arrives;
    in_order = (s.later, rw (s.last) w.in_order);
    each_once = ap suc w.each_once;
  }

  pub down_step-shown :
      (m : Meter) (ui ui1 : Panel) (n : ℕ) (d : MeterData Decimal)
      → Step m ui ui1 n
      → down_step d ui1 ≡ done (false, down_note m (shown port n) d)
  down_step-shown m ui ui1 n d s =
      down_step-meter m ui1 d s.arrives ∙ ap (λ t. done (false, down_note m t d)) s.displays

  pub down_loop-meters :
      (ms : List Meter) (k : ℕ) (ui : Panel) (d : MeterData Decimal)
      → At mi k ui
      → Descends k ms
      → (ui' : Panel) × (ns : List ℕ) × (down_loop port (length ms) d ui
          ≡ done (down_notes (shown port) ms ns d, ui'))
        × Walked k ms ns ui ui'
  unfolding down_loop down_notes
  down_loop-meters [] k ui d a way =
      (ui, [], refl, record { arrives = a; in_order = omega arith; each_once = refl })
  down_loop-meters (m ∷ ms) k ui d a way =
      let (ui1, n, run, s) = down_one k m ui a (way.0) in
      let d1 = down_note m (shown port n) d in
      let (ui', ns, rest, w) = down_loop-meters ms (place m) ui1 d1 s.arrives (way.1) in
      (
        ui',
        n ∷ ns,
        bind-done _ _ run (bind-done _ _ (down_step-shown m ui ui1 n d s) rest),
        walk_on s w,
      )

  pub up_loop-meters :
      (h : ℤ) (ms : List Meter) (k : ℕ) (ui : Panel) (d : MeterData Decimal)
      → At mi k ui
      → Ascends k ms
      → (ui' : Panel) × (ns : List ℕ) × (up_loop port h (length ms) d ui
          ≡ done (up_notes (shown port) h ms ns d, ui'))
        × Walked k ms ns ui ui'
  unfolding up_loop up_notes
  up_loop-meters h [] k ui d a way =
      (ui, [], refl, record { arrives = a; in_order = omega arith; each_once = refl })
  up_loop-meters h (m ∷ ms) k ui d a way =
      let (ui1, n, run, s) = up_one k m ui a (way.0) in
      let d1 = up_note h m (shown port n) d in
      let (ui', ns, rest, w) = up_loop-meters h ms (place m) ui1 d1 s.arrives (way.1) in
      let stored : up_step h d ui1 ≡ done d1 =
        up_step-meter m h ui1 d s.arrives ∙ ap (λ t. done (up_note h m t d)) s.displays in
      (ui', n ∷ ns, bind-done _ _ run (bind-done _ _ stored rest), walk_on s w)

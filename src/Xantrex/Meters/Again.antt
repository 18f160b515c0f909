-- ===== src/Xantrex/Meters/Again.antt =====
-- The second pass of `XantrexUI::PollMeters`.
use powerguru.Prelude.{ℕ, zero, suc, ◌+◌, ◌≤◌, ◌≡◌, refl, true, List, [], ◌∷◌, none, codes, arith}
use powerguru.Std.Run.{Run, undefined, ◌>>=◌, bind-done}
use powerguru.Std.Convert.{Decimal}
use powerguru.Serial.{Round}
use powerguru.Database.{MeterData}
use powerguru.Menu.Item.{MenuItem}
use powerguru.Xantrex.Table.{set_default_values, get_item}
use powerguru.Xantrex.Lookup.{get_item-information}
use powerguru.Xantrex.Panel.{Panel, press, refresh, press_until, current_label, menu_item_minus}
use powerguru.Xantrex.Meters.{no_data, down_loop, poll_loop, poll_meters}
use powerguru.Xantrex.Meters.Items.{
  Meter, load, actual, tempcomp, inverter, grid, generator, frequency, place, At, down_note,
}
use powerguru.Xantrex.Meters.Walk.{
  Descends, shown, down_loop-meters, up_loop-meters, last_place, down_one, down_step-shown,
}
use powerguru.Xantrex.Meters.Poll.{
  start, down_way, down_way-Descends, up_way, up_way-Ascends, down_record,
}

-- The meters below item 2.
abbrev second_way : List Meter
second_way = load ∷ actual ∷ tempcomp ∷ inverter ∷ grid ∷ generator ∷ frequency ∷ []

-- One round for each meter, one more, and `rounds` others.
abbrev rounds_past : List Meter → ℕ → ℕ
rounds_past [] rounds = suc rounds
rounds_past (m ∷ ms) rounds = suc (rounds_past ms rounds)

-- `GetItem` finds no item behind the last meter.
behind-meters : (mi : MenuItem) → get_item (set_default_values mi) 4 10 ≡ none
behind-meters mi = get_item-information mi 32 (codes "AC1 & AC2 volts  valid only when") 4 10 refl

-- What follows an undefined run is undefined.
bind-undefined {ℓ κ} :
    {A : Type ℓ} {B : Type κ} (m : Run A) (f : A → Run B) → m ≡ undefined → (m >>= f) ≡ undefined
bind-undefined m f e = rw e refl

module _ (port : ℕ → ℕ → Round) (mi : MenuItem) where
  press_until-behind :
      (key retries : ℕ) (ui : Panel)
      → get_item ui.items ui.menuheading ui.menuitem ≡ none
      → press_until port true key (suc retries) ui ≡ undefined
  unfolding press_until current_label refresh press
  press_until-behind key retries ui e = rw e refl

  menu_item_minus-behind : (ui : Panel) → At mi 9 ui → menu_item_minus port ui ≡ undefined
  unfolding menu_item_minus
  menu_item_minus-behind ui a =
      press_until-behind b'D' 4 (record ui { menuitem = ui.menuitem + 1 })
        (rw (a.default_items, a.heading, a.item) (behind-meters mi))

  last_step :
      (rounds : ℕ) (ui : Panel) (d : MeterData Decimal)
      → At mi 9 ui
      → down_loop port (suc rounds) d ui ≡ undefined
  unfolding down_loop
  last_step rounds ui d a = bind-undefined _ _ (menu_item_minus-behind ui a)

  past_meters :
      (ms : List Meter) (k rounds : ℕ) (ui : Panel) (d : MeterData Decimal)
      → At mi k ui
      → Descends k ms
      → last_place k ms ≡ 9
      → down_loop port (rounds_past ms rounds) d ui ≡ undefined
  unfolding down_loop
  past_meters [] k rounds ui d a way e = last_step rounds ui d (rw e at a)
  past_meters (m ∷ ms) k rounds ui d a way e =
      let (ui1, n, run, s) = down_one port mi k m ui a (way.0) in
      bind-done _ _ run (
        bind-done _ _ (down_step-shown port mi m ui ui1 n d s)
          (past_meters ms (place m) rounds ui1 (down_note m (shown port n) d) s.arrives (way.1) e))

-- `PollMeters` with two passes or more, on an open port and the default table, whatever the kernel
-- answers, refers to an item behind the end of the table: the second pass starts at item 2, and its
-- last step leads to item 10.
pub poll_meters-again :
    (port : ℕ → ℕ → Round) (mi : MenuItem) (loops : ℕ) (ui : Panel)
    → ui.is_open ≡ true
    → ui.items ≡ set_default_values mi
    → 2 ≤ loops
    → poll_meters port loops ui ≡ undefined
unfolding poll_meters poll_loop down_record
poll_meters-again port mi zero ui o e low = absurd (omega (arith, low))
poll_meters-again port mi (suc zero) ui o e low = absurd (omega (arith, low))
poll_meters-again port mi (suc (suc loops)) ui o e low =
    let (ui1, run1, a1, _) = start port mi ui o e in
    let (ui2, ns, run2, w2) =
      down_loop-meters port mi down_way 1 ui1 no_data a1 down_way-Descends in
    let (ui3, ns', run3, w3) =
      up_loop-meters port mi (down_record port ns).hertz up_way 9 ui2 no_data w2.arrives
        up_way-Ascends in
    let second =
      past_meters port mi second_way 2 0 ui3 no_data w3.arrives (down_way-Descends.1) refl in
    bind-done _ _ run1
      (bind-undefined _ _ (bind-done _ _ run2 (bind-done _ _ run3 (bind-undefined _ _ second))))

-- ===== src/Xantrex/Meters/Poll.antt =====
-- `XantrexUI::PollMeters` on the default table: the records of one pass, and the second pass.
use powerguru.Prelude.{ℕ, ◌+◌, ◌≤◌, ◌≡◌, refl, ◌∙◌, ap, true, List, [], ◌∷◌, arith, length}
use powerguru.Std.Run.{done, bind-done}
use powerguru.Std.Convert.{Decimal}
use powerguru.Serial.{Round}
use powerguru.Database.{MeterData}
use powerguru.Menu.Item.{MenuItem}
use powerguru.Xantrex.Table.{set_default_values}
use powerguru.Xantrex.Search.{first, item_of, is_key, stored, get_item-default}
use powerguru.Xantrex.Panel.{Panel, menu_heading_plus, menu_heading_minus, goto_menu_item}
use powerguru.Xantrex.Panel.Goto.{
  has_item, headings_found, items_found, goto_menu_item_lem, menu_heading_plus_lem,
  menu_heading_minus_lem,
}
use powerguru.Xantrex.Meters.{no_data, poll_loop, poll_meters}
use powerguru.Xantrex.Meters.Items.{
  Meter, input, load, actual, tempcomp, inverter, grid, generator, frequency, place, At,
}
use powerguru.Xantrex.Meters.Unread.{Unread, NoLoad, down_notes-Unread, up_notes-Unread}
use powerguru.Xantrex.Meters.Walk.{
  Ascends, shown, down_notes, up_notes, InOrder, Descends, down_loop-meters, up_loop-meters,
}

abbrev pub down_way : List Meter
down_way = input ∷ load ∷ actual ∷ tempcomp ∷ inverter ∷ grid ∷ generator ∷ frequency ∷ []

abbrev pub up_way : List Meter
up_way = generator ∷ grid ∷ inverter ∷ tempcomp ∷ actual ∷ load ∷ input ∷ []

pub down_way-Descends : Descends 1 down_way
down_way-Descends = (refl, (refl, (refl, (refl, (refl, (refl, (refl, (refl, tt))))))))

pub up_way-Ascends : Ascends 9 up_way
up_way-Ascends = (refl, (refl, (refl, (refl, (refl, (refl, (refl, tt)))))))

-- The headings of the default table.
default_heading :
    (mi : MenuItem)
    → (has_item (set_default_values mi) 1 0 ≡ true)
      × (has_item (set_default_values mi) 2 0 ≡ true)
      × (has_item (set_default_values mi) 3 0 ≡ true)
      × (has_item (set_default_values mi) 4 0 ≡ true)
      × (has_item (set_default_values mi) 4 1 ≡ true)
      × (has_item (set_default_values mi) 5 0 ≡ true)
unfolding first item_of is_key stored
default_heading mi = (
  rw (get_item-default mi 1 0) refl,
  rw (get_item-default mi 2 0) refl,
  rw (get_item-default mi 3 0) refl,
  rw (get_item-default mi 4 0) refl,
  rw (get_item-default mi 4 1) refl,
  rw (get_item-default mi 5 0) refl,
)

module _ (port : ℕ → ℕ → Round) (mi : MenuItem) where
  -- The way to item 1 of the heading "Meters".
  pub start :
      (ui : Panel)
      → ui.is_open ≡ true
      → ui.items ≡ set_default_values mi
      → (ui1 : Panel) × (goto_menu_item port 4 1 ui ≡ done ui1)
        × At mi 1 ui1
        × (ui.reads ≤ ui1.reads)
  unfolding headings_found items_found
  start ui o e =
      let (_, two, three, four, item, _) = default_heading mi in
      let headings : headings_found ui.items 1 3 ≡ true = rw (e, two, three, four) refl in
      let (ui1, k, m, run, _, _, _, _, reads, heading, place, same, still) =
        goto_menu_item_lem port 4 1 ui o headings refl (rw e item) (omega arith) in
      (
        ui1,
        run,
        record { default_items = same ∙ e; heading = heading; item = place; still_open = still },
        omega (arith, reads),
      )

  -- The last two buttons of the method.
  finish :
      {k : ℕ} (ui : Panel)
      → At mi k ui
      → (ui1 : Panel) × (ui2 : Panel) × (menu_heading_plus port ui ≡ done ui1)
        × (menu_heading_minus port ui1 ≡ done ui2)
        × (ui.reads ≤ ui2.reads)
  finish ui a =
      let (_, _, _, four, _, five) = default_heading mi in
      let (ui1, run1, p, at1) =
        menu_heading_plus_lem port ui a.still_open (rw (a.default_items, a.heading) five) in
      let fifth : ui1.menuheading ≡ 5 = at1.0 ∙ ap (λ x. x + 1) a.heading in
      let (ui2, run2, q, at2) =
        menu_heading_minus_lem port ui1 p.still_open (omega (arith, fifth))
          (rw (p.same_items, a.default_items, fifth) four) in
      (ui1, ui2, run1, run2, omega (arith, p.all_read, q.all_read))

wider :
    (ns : List ℕ) {low low' high high' : ℕ}
    → low' ≤ low
    → high ≤ high'
    → InOrder low ns high
    → InOrder low' ns high'
wider [] l h o = omega arith
wider (n ∷ ns) l h o = (omega (arith, o.0), wider ns (omega arith) h (o.1))

-- The records of one pass, from the reads with the numbers in `ns` on the way down and in `ns'` on
-- the way up.
unfoldable pub down_record : (ℕ → ℕ → Round) → List ℕ → MeterData Decimal
down_record port ns = down_notes (shown port) down_way ns no_data

unfoldable pub up_record : (ℕ → ℕ → Round) → List ℕ → List ℕ → MeterData Decimal
up_record port ns ns' = up_notes (shown port) (down_record port ns).hertz up_way ns' no_data

-- Where the port is open and the table is the default one, `PollMeters (1)` returns two records,
-- whatever the kernel answers. The first comes from eight reads, one for each of the items 2 to 9 in
-- their order: the load from the second, the battery volts and the compensated ones from the next two,
-- the AC volts from the fifth and the hertz from the eighth, where the display had two characters at
-- least. The second comes from seven later reads, for the items 8 to 2: the AC volts from the third, the
-- two battery voltages from the fourth and the fifth in reverse, where the display had one character at
-- least, and the hertz of the first record, where one of the displays had. A shorter display leaves the
-- member as the empty record has it. What is shown of the input
-- amperes is stored in neither, the load is missing in the second, and in both the amperes of the charge
-- and the volts of the grid and of the generator are 0.
pub poll_meters-once :
    (port : ℕ → ℕ → Round) (mi : MenuItem) (ui : Panel)
    → ui.is_open ≡ true
    → ui.items ≡ set_default_values mi
    → (ui' : Panel) × (ns : List ℕ) × (ns' : List ℕ) × (r : ℕ) × (poll_meters port 1 ui
        ≡ done (down_record port ns ∷ up_record port ns ns' ∷ [], ui'))
      × (length ns ≡ 8)
      × (length ns' ≡ 7)
      × InOrder ui.reads ns r
      × InOrder r ns' ui'.reads
      × Unread (down_record port ns)
      × Unread (up_record port ns ns')
      × NoLoad (up_record port ns ns')
unfolding poll_meters poll_loop down_record up_record
poll_meters-once port mi ui o e =
    let (ui1, run1, a1, later1) = start port mi ui o e in
    let (ui2, ns, run2, w2) =
      down_loop-meters port mi down_way 1 ui1 no_data a1 down_way-Descends in
    let (ui3, ns', run3, w3) =
      up_loop-meters port mi (down_record port ns).hertz up_way 9 ui2 no_data w2.arrives
        up_way-Ascends in
    let (ui4, ui5, run4, run5, later5) = finish port mi ui3 w3.arrives in
    let (u, l) =
      up_notes-Unread (shown port) (down_record port ns).hertz up_way ns' no_data (refl, refl, refl)
        refl in
    (
      ui5,
      ns,
      ns',
      ui2.reads,
      bind-done _ _ run1 (
          bind-done _ _ (bind-done _ _ run2 (bind-done _ _ run3 refl))
            (bind-done _ _ run4 (bind-done _ _ run5 refl))),
      w2.each_once,
      w3.each_once,
      wider ns later1 (omega arith) w2.in_order,
      wider ns' (omega arith) later5 w3.in_order,
      down_notes-Unread (shown port) down_way ns no_data (refl, refl, refl),
      u,
      l,
    )

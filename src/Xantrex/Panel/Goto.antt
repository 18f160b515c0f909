-- ===== src/Xantrex/Panel/Goto.antt =====
-- `XantrexUI::GotoMenuItem`: the buttons that it presses from one end of the menu to an item.
use powerguru.Prelude.{
  ℕ, zero, suc, ◌+◌, ◌-◌, ◌*◌, ◌≤◌, ◌≡◌, refl, ◌∙◌, ap, Bool, true, false, ◌&&◌, List, ◌++◌, Option,
  none, some, arith, ltb, if◌then◌else◌,
}
use powerguru.Std.Run.{done, bind-done}
use powerguru.Serial.{Round}
use powerguru.Menu.Item.{MenuItem}
use powerguru.Menu.Display.{repeat}
use powerguru.Xantrex.Table.{get_item}
use powerguru.Xantrex.Panel.{
  Panel, press, refresh, menu_heading_plus, menu_heading_minus, menu_item_minus, menu_item_plus,
  find_start, goto_menu_start, repeat_run, goto_from_start, goto_menu_item, found_item,
}
use powerguru.Xantrex.Panel.Route.{
  Pressed, none-Pressed, and_then, counted, one_press, find_start_lem, current_label-done,
  press_until_lem, Seen, pressed-Seen,
}

abbrev is_found : Option MenuItem → Bool
is_found none = false
is_found (some item) = true

-- `GetItem` finds item `y` of heading `x`.
abbrev pub has_item : List (List MenuItem) → ℕ → ℕ → Bool
has_item items x y = is_found (get_item items x y)

-- It finds the `n` headings behind `x`, and the `n` items behind item `y` of heading `x`.
unfoldable pub headings_found : List (List MenuItem) → ℕ → ℕ → Bool
headings_found items x zero = true
headings_found items x (suc n) = has_item items (x + 1) 0 && headings_found items (x + 1) n

unfoldable pub items_found : List (List MenuItem) → ℕ → ℕ → ℕ → Bool
items_found items x y zero = true
items_found items x y (suc n) = has_item items x (y + 1) && items_found items x (y + 1) n

pub is_found-some : (o : Option MenuItem) → is_found o ≡ true → (item : MenuItem) × (o ≡ some item)
is_found-some none h = cc
is_found-some (some item) h = (item, refl)

-- `ui'` shows heading `x` and item `y`.
abbrev pub IsAt : ℕ → ℕ → Panel → Type 0
IsAt x y ui = (ui.menuheading ≡ x) × (ui.menuitem ≡ y)

-- To set the place leaves the table, the port and its counts alone.
moved :
    {key n : ℕ} {ui ui' : Panel} (x y : ℕ)
    → Pressed key n ui ui'
    → Pressed key n ui (record ui' { menuheading = x; menuitem = y })
moved x y p = record {
  same_items = p.same_items;
  still_open = p.still_open;
  all_sent = p.all_sent;
  all_read = p.all_read;
}

placed :
    {key n : ℕ} {ui ui' : Panel} (x y : ℕ)
    → Pressed key n (record ui { menuheading = x; menuitem = y }) ui'
    → Pressed key n ui ui'
placed x y p = record {
  same_items = p.same_items;
  still_open = p.still_open;
  all_sent = p.all_sent;
  all_read = p.all_read;
}

module _ (port : ℕ → ℕ → Round) where
  same_table :
      (key : ℕ) (ui : Panel) (x : ℕ) (item : MenuItem)
      → get_item ui.items x 0 ≡ some item
      → get_item (refresh port (press key ui)).items x 0 ≡ some item
  unfolding refresh press
  same_table key ui x item e = e

  pub menu_heading_plus_lem :
      (ui : Panel)
      → ui.is_open ≡ true
      → has_item ui.items (ui.menuheading + 1) 0 ≡ true
      → (ui' : Panel) × (menu_heading_plus port ui ≡ done ui')
        × Pressed b'R' 1 ui ui'
        × IsAt (ui.menuheading + 1) 0 ui'
  unfolding menu_heading_plus
  menu_heading_plus_lem ui o h =
      let (item, e) = is_found-some (get_item ui.items (ui.menuheading + 1) 0) h in
      let ui1 = record (refresh port (press b'R' ui)) {
        menuheading = ui.menuheading + 1;
        menuitem = 0;
      } in
      let p = moved (ui.menuheading + 1) 0 (one_press port b'R' ui o) in
      (
        ui1,
        bind-done _ _
            (current_label-done port ui1 item (same_table b'R' ui (ui.menuheading + 1) item e))
            refl,
        p,
        (refl, refl),
      )

  pub menu_heading_minus_lem :
      (ui : Panel)
      → ui.is_open ≡ true
      → 2 ≤ ui.menuheading
      → has_item ui.items (ui.menuheading - 1) 0 ≡ true
      → (ui' : Panel) × (menu_heading_minus port ui ≡ done ui')
        × Pressed b'L' 1 ui ui'
        × IsAt (ui.menuheading - 1) 0 ui'
  unfolding menu_heading_minus
  menu_heading_minus_lem ui o low h =
      let (item, e) = is_found-some (get_item ui.items (ui.menuheading - 1) 0) h in
      let before : (if ltb 1 ui.menuheading then ui.menuheading - 1 else ui.menuheading)
          ≡ ui.menuheading - 1 =
        ground (arith, low) in
      let ui1 = record (refresh port (press b'L' ui)) {
        menuheading = ui.menuheading - 1;
        menuitem = 0;
      } in
      (
        ui1,
        rw before (
            bind-done _ _
              (current_label-done port ui1 item (same_table b'L' ui (ui.menuheading - 1) item e))
              refl),
        moved (ui.menuheading - 1) 0 (one_press port b'L' ui o),
        (refl, refl),
      )

  headings_lem :
      (n x : ℕ) (ui : Panel)
      → ui.is_open ≡ true
      → IsAt x 0 ui
      → headings_found ui.items x n ≡ true
      → (ui' : Panel) × (repeat_run n (menu_heading_plus port) ui ≡ done ui')
        × Pressed b'R' n ui ui'
        × IsAt (x + n) 0 ui'
  unfolding repeat_run headings_found
  headings_lem zero x ui o at h = (ui, refl, none-Pressed b'R' ui o, (omega (arith, at.0), at.1))
  headings_lem (suc n) x ui o at h =
      let here : has_item ui.items (ui.menuheading + 1) 0 ≡ true = rw (at.0) (ground (arith, h)) in
      let (ui1, run, p, at1) = menu_heading_plus_lem ui o here in
      let rest : headings_found ui.items (x + 1) n ≡ true = ground (arith, h) in
      let next : ui.menuheading + 1 ≡ x + 1 = omega (arith, at.0) in
      let (ui', run', q, at') =
        headings_lem n (x + 1) ui1 p.still_open (at1.0 ∙ next, at1.1)
          (ap (λ items. headings_found items (x + 1) n) p.same_items ∙ rest) in
      (
        ui',
        bind-done _ _ run run',
        counted (omega arith) (and_then p q),
        (at'.0 ∙ omega arith, at'.1),
      )

  pub menu_item_minus_lem :
      (ui : Panel)
      → ui.is_open ≡ true
      → has_item ui.items ui.menuheading (ui.menuitem + 1) ≡ true
      → (ui' : Panel) × (times : ℕ) × (menu_item_minus port ui ≡ done ui')
        × Pressed b'D' times ui ui'
        × (1 ≤ times)
        × (times ≤ 5)
        × IsAt ui.menuheading (ui.menuitem + 1) ui'
        × Seen port ui'
  unfolding menu_item_minus
  menu_item_minus_lem ui o h =
      let (item, e) = is_found-some (get_item ui.items ui.menuheading (ui.menuitem + 1)) h in
      let (ui', n, run, p, few, some_press, heading, place, _, seen) =
        press_until_lem port true b'D' 5 (record ui { menuitem = ui.menuitem + 1 }) item o e in
      (
        ui',
        n,
        run,
        placed ui.menuheading (ui.menuitem + 1) p,
        omega (arith, some_press),
        few,
        (heading, place),
        pressed-Seen port (omega (arith, some_press)) seen,
      )

  -- `MenuItemPlus` goes to the item before, down to item 1.
  pub menu_item_plus_lem :
      (ui : Panel) (y : ℕ)
      → ui.is_open ≡ true
      → 1 ≤ y
      → ui.menuitem ≡ y + 1
      → has_item ui.items ui.menuheading y ≡ true
      → (ui' : Panel) × (times : ℕ) × (menu_item_plus port ui ≡ done ui')
        × Pressed b'U' times ui ui'
        × IsAt ui.menuheading y ui'
        × Seen port ui'
        × (1 ≤ times)
        × (times ≤ 5)
  unfolding menu_item_plus
  menu_item_plus_lem ui y o low at h =
      let (item, e) = is_found-some (get_item ui.items ui.menuheading y) h in
      let (ui', n, run, p, few, some_press, heading, place, _, seen) =
        press_until_lem port false b'U' 5 (record ui { menuitem = y }) item o e in
      let before : (if ltb 1 ui.menuitem then ui.menuitem - 1 else ui.menuitem) ≡ y =
        ground (arith, low, at) in
      (
        ui',
        n,
        rw before run,
        placed ui.menuheading y p,
        (heading, place),
        pressed-Seen port (omega (arith, some_press)) seen,
        omega (arith, some_press),
        few,
      )

  items_lem :
      (n x y : ℕ) (ui : Panel)
      → ui.is_open ≡ true
      → IsAt x y ui
      → items_found ui.items x y n ≡ true
      → (ui' : Panel) × (times : ℕ) × (repeat_run n (menu_item_minus port) ui ≡ done ui')
        × Pressed b'D' times ui ui'
        × (n ≤ times)
        × (times ≤ 5 * n)
  unfolding repeat_run items_found
  items_lem zero x y ui o at h = (ui, 0, refl, none-Pressed b'D' ui o, omega arith, omega arith)
  items_lem (suc n) x y ui o at h =
      let here : has_item ui.items ui.menuheading (ui.menuitem + 1) ≡ true =
        rw (at.0, at.1) (ground (arith, h)) in
      let (ui1, m, run, p, low, high, at1, _) = menu_item_minus_lem ui o here in
      let rest : items_found ui.items x (y + 1) n ≡ true = ground (arith, h) in
      let next : ui.menuitem + 1 ≡ y + 1 = omega (arith, at.1) in
      let (ui', k, run', q, low', high') =
        items_lem n x (y + 1) ui1 p.still_open (at1.0 ∙ at.0, at1.1 ∙ next)
          (ap (λ items. items_found items x (y + 1) n) p.same_items ∙ rest) in
      (ui', m + k, bind-done _ _ run run', and_then p q, omega arith, omega arith)

  goto_menu_start_lem :
      (ui found : Panel)
      → find_start port 22 ui ≡ found
      → goto_menu_start port ui ≡ record found { menuheading = 1; menuitem = 0 }
  unfolding goto_menu_start
  goto_menu_start_lem ui found e =
      ap {A = Panel} {B = Panel} (λ v. record v { menuheading = 1; menuitem = 0 }) e

  goto_from_start_lem :
      (mh mi : ℕ) (ui1 : Panel) (item : MenuItem) {ui2 ui3 : Panel}
      → get_item ui1.items mh mi ≡ some item
      → repeat_run (mh - 1) (menu_heading_plus port) ui1 ≡ done ui2
      → repeat_run (mi - 1) (menu_item_minus port) ui2 ≡ done ui3
      → goto_from_start port mh mi ui1 ≡ done (record ui3 { menuheading = mh; menuitem = mi })
  unfolding goto_from_start
  goto_from_start_lem mh mi ui1 item e run2 run3 =
      bind-done _ _ (ap found_item e) (bind-done _ _ run2 (bind-done _ _ run3 refl))

  -- On an open port, and where the table has the headings and the items on the way, `GotoMenuItem`
  -- presses "L" at most 22 times, "R" once for each heading behind the first, and "D" at least once
  -- and at most five times for each item behind the first; then it is at the item, with the
  -- same table, and the port is still open.
  pub goto_menu_item_lem :
      (mh mi : ℕ) (ui : Panel)
      → ui.is_open ≡ true
      → headings_found ui.items 1 (mh - 1) ≡ true
      → items_found ui.items mh 0 (mi - 1) ≡ true
      → has_item ui.items mh mi ≡ true
      → 1 ≤ mh
      → (ui' : Panel) × (k : ℕ) × (m : ℕ) × (goto_menu_item port mh mi ui ≡ done ui')
        × (k ≤ 22)
        × (mi - 1 ≤ m)
        × (m ≤ 5 * (mi - 1))
        × (ui'.sent ≡ ui.sent ++ repeat k b'L' ++ repeat (mh - 1) b'R' ++ repeat m b'D')
        × (ui'.reads ≡ ui.reads + k + (mh - 1) + m)
        × (ui'.menuheading ≡ mh)
        × (ui'.menuitem ≡ mi)
        × (ui'.items ≡ ui.items)
        × (ui'.is_open ≡ true)
  unfolding goto_menu_item
  goto_menu_item_lem mh mi ui o hs is h low =
      let (found, k, start, p, few, _) = find_start_lem port 22 ui o in
      let ui1 = record found { menuheading = 1; menuitem = 0 } in
      let (item, e) = is_found-some (get_item ui.items mh mi) h in
      let here : get_item ui1.items mh mi ≡ some item =
        ap (λ items. get_item items mh mi) p.same_items ∙ e in
      let (ui2, run2, q, at2) =
        headings_lem (mh - 1) 1 ui1 p.still_open (refl, refl)
          (ap (λ items. headings_found items 1 (mh - 1)) p.same_items ∙ hs) in
      let (ui3, m, run3, r, least, most) =
        items_lem (mi - 1) mh 0 ui2 q.still_open (at2.0 ∙ omega arith, at2.1)
          (ap (λ items. items_found items mh 0 (mi - 1)) (q.same_items ∙ p.same_items) ∙ is) in
      (
        record ui3 { menuheading = mh; menuitem = mi },
        k,
        m,
        ap (goto_from_start port mh mi) (goto_menu_start_lem ui found start)
            ∙ goto_from_start_lem mh mi ui1 item here run2 run3,
        few,
        least,
        most,
        r.all_sent
            ∙ ap (λ s. s ++ repeat m b'D')
                (q.all_sent ∙ ap (λ s. s ++ repeat (mh - 1) b'R') p.all_sent),
        omega (arith, p.all_read, q.all_read, r.all_read),
        refl,
        refl,
        r.same_items ∙ q.same_items ∙ p.same_items,
        r.still_open,
      )

-- ===== src/Xantrex/Panel/Route.antt =====
-- How many buttons `XantrexUI` presses on the way to an item.
use powerguru.Prelude.{
  ℕ, zero, suc, ◌+◌, ◌≤◌, ◌≡◌, refl, sym, ◌∙◌, ap, min, Bool, true, ◌&&◌, ◌∷◌, ◌++◌, append-nil,
  append_assoc, some, codes, arith, length, ◌==◌, inl, inr, Bool-cases, ◌⊎◌,
}
use powerguru.Std.Run.{done, bind-done}
use powerguru.Std.Str.{contains}
use powerguru.Serial.{Round}
use powerguru.Outback.Loop.{read_serial}
use powerguru.Menu.Item.{MenuItem}
use powerguru.Menu.Display.{repeat}
use powerguru.Xantrex.Table.{get_item}
use powerguru.Xantrex.Panel.{
  Panel, press, label_of, current_label, refresh, press_until, find_start, reply,
}

-- The button `key` was pressed `times` times, each time with one read, on an open port.
pub record Pressed (key times : ℕ) (ui ui' : Panel) : Type 0 where
  pub same_items : ui'.items ≡ ui.items
  pub still_open : ui'.is_open ≡ true
  pub all_sent : ui'.sent ≡ ui.sent ++ repeat times key
  pub all_read : ui'.reads ≡ ui.reads + times

repeat-append : (j k c : ℕ) → repeat j c ++ repeat k c ≡ repeat (j + k) c
unfolding repeat
repeat-append zero k c = ap (λ n. repeat n c) (omega arith)
repeat-append (suc j) k c =
    let next : suc (j + k) ≡ suc j + k = omega arith in
    ap (λ s. c ∷ s) (repeat-append j k c) ∙ ap (λ n. repeat n c) next

pub none-Pressed : (key : ℕ) (ui : Panel) → ui.is_open ≡ true → Pressed key 0 ui ui
unfolding repeat
none-Pressed key ui o = record {
  same_items = refl;
  still_open = o;
  all_sent = sym (append-nil ui.sent);
  all_read = omega arith;
}

-- The presses of one leg after those of another.
pub and_then :
    {key m n : ℕ} {ui ui1 ui2 : Panel}
    → Pressed key m ui ui1
    → Pressed key n ui1 ui2
    → Pressed key (m + n) ui ui2
and_then {key} {m} {n} {ui} p q = record {
  same_items = q.same_items ∙ p.same_items;
  still_open = q.still_open;
  all_sent =
      q.all_sent
      ∙ ap (λ s. s ++ repeat n key) p.all_sent
      ∙ append_assoc ui.sent (repeat m key) (repeat n key)
      ∙ ap (λ s. ui.sent ++ s) (repeat-append m n key);
  all_read = omega (arith, p.all_read, q.all_read);
}

-- Another name for the number of presses.
pub counted : {key m n : ℕ} {ui ui' : Panel} → m ≡ n → Pressed key m ui ui' → Pressed key n ui ui'
counted {key} {m} {n} {ui} e p = record {
  same_items = p.same_items;
  still_open = p.still_open;
  all_sent = p.all_sent ∙ ap (λ k. ui.sent ++ repeat k key) e;
  all_read = omega (arith, p.all_read, e);
}

module _ (port : ℕ → ℕ → Round) where
  pub one_press :
      (key : ℕ) (ui : Panel) → ui.is_open ≡ true → Pressed key 1 ui (refresh port (press key ui))
  unfolding refresh press repeat
  one_press key ui o = record {
    same_items = refl;
    still_open = o;
    all_sent = rw o refl;
    all_read = omega arith;
  }

  -- `GotoMenuStart` presses the button 22 times, or stops at the display of the first heading.
  pub find_start_lem :
      (rounds : ℕ) (ui : Panel)
      → ui.is_open ≡ true
      → (ui' : Panel) × (times : ℕ) × (find_start port rounds ui ≡ ui')
        × Pressed b'L' times ui ui'
        × (times ≤ rounds)
        × ((times ≡ rounds) ⊎ (contains (codes "Inverter") ui'.menudisp ≡ true))
  unfolding find_start
  find_start_lem zero ui o = (ui, 0, refl, none-Pressed b'L' ui o, omega arith, inl refl)
  find_start_lem (suc rounds) ui o =
      let ui1 = refresh port (press b'L' ui) in
      let p = one_press b'L' ui o in
      elim (Bool-cases (contains (codes "Inverter") ui1.menudisp)) [
        | inl e ↦ (ui1, 1, rw e refl, p, omega arith, inr e)
        | inr e ↦
            let (ui', n, run, q, few, last) = find_start_lem rounds ui1 p.still_open in
            (
              ui',
              1 + n,
              rw e run,
              and_then p q,
              omega arith,
              elim last [ inl all ↦ inl (omega arith) | inr found ↦ inr found ],
            )
      ]

  -- What `ui` displays is the answer to its last read.
  unfoldable pub Seen : Panel → Type 0
  Seen ui = (n : ℕ) × (suc n ≡ ui.reads) × (ui.menudisp ≡ read_serial true (port n))

  press-Seen : (key : ℕ) (ui : Panel) → ui.is_open ≡ true → Seen (refresh port (press key ui))
  unfolding Seen refresh reply press
  press-Seen key ui o = (ui.reads, refl, ap (λ is_open. read_serial is_open (port ui.reads)) o)

  -- The last of two legs decides what is seen, if it has a press.
  after_press : {n : ℕ} {ui1 ui' : Panel} → Seen ui1 → ((n ≡ 0) × (ui' ≡ ui1)) ⊎ Seen ui' → Seen ui'
  after_press before (inl still) = rw (still.1) before
  after_press before (inr seen) = seen

  pub current_label-done :
      (ui : Panel) (item : MenuItem)
      → get_item ui.items ui.menuheading ui.menuitem ≡ some item
      → current_label ui ≡ done item.label
  unfolding current_label
  current_label-done ui item e = ap label_of e

  same_item :
      (key : ℕ) (ui : Panel)
      → let ui1 = refresh port (press key ui) in
        get_item ui1.items ui1.menuheading ui1.menuitem
        ≡ get_item ui.items ui.menuheading ui.menuitem
  unfolding refresh press
  same_item key ui = refl

  same_place :
      (key : ℕ) (ui : Panel)
      → ((refresh port (press key ui)).menuheading ≡ ui.menuheading)
        × ((refresh port (press key ui)).menuitem ≡ ui.menuitem)
  unfolding refresh press
  same_place key ui = (refl, refl)

  -- Where the current item is in the table, the loop of `MenuItemMinus` and `MenuItemPlus` ends
  -- after at most `retries` presses, and before them only at a display that has the label.
  pub press_until_lem :
      (needs_label : Bool) (key retries : ℕ) (ui : Panel) (item : MenuItem)
      → ui.is_open ≡ true
      → get_item ui.items ui.menuheading ui.menuitem ≡ some item
      → (ui' : Panel) × (times : ℕ) × (press_until port needs_label key retries ui ≡ done ui')
        × Pressed key times ui ui'
        × (times ≤ retries)
        × (min 1 retries ≤ times)
        × (ui'.menuheading ≡ ui.menuheading)
        × (ui'.menuitem ≡ ui.menuitem)
        × ((times ≡ retries) ⊎ (contains item.label ui'.menudisp ≡ true))
        × (((times ≡ 0) × (ui' ≡ ui)) ⊎ Seen ui')
  unfolding press_until
  press_until_lem needs_label key zero ui item o e = (
    ui,
    0,
    refl,
    none-Pressed key ui o,
    omega arith,
    omega arith,
    refl,
    refl,
    inl refl,
    inl (refl, refl),
  )
  press_until_lem needs_label key (suc retries) ui item o e =
      let ui1 = refresh port (press key ui) in
      let p = one_press key ui o in
      let (heading, place) = same_place key ui in
      let (ui', n, run, q, few, _, heading', place', last, seen) =
        press_until_lem needs_label key retries ui1 item p.still_open (same_item key ui ∙ e) in
      let label = current_label-done ui1 item (same_item key ui ∙ e) in
      elim (Bool-cases (needs_label && length item.label == 0)) [
        | inl empty ↦ (
          ui',
          1 + n,
          bind-done _ _ label (rw empty run),
          and_then p q,
          omega arith,
          omega arith,
          heading' ∙ heading,
          place' ∙ place,
          elim last [ inl all ↦ inl (omega arith) | inr found ↦ inr found ],
          inr (after_press (press-Seen key ui o) seen),
        )
        | inr filled ↦ elim (Bool-cases (contains item.label ui1.menudisp)) [
          | inl found ↦ (
            ui1,
            1,
            bind-done _ _ label (rw (filled, found) refl),
            p,
            omega arith,
            omega arith,
            heading,
            place,
            inr found,
            inr (press-Seen key ui o),
          )
          | inr missed ↦ (
            ui',
            1 + n,
            bind-done _ _ label (rw (filled, missed) run),
            and_then p q,
            omega arith,
            omega arith,
            heading' ∙ heading,
            place' ∙ place,
            elim last [ inl all ↦ inl (omega arith) | inr found ↦ inr found ],
            inr (after_press (press-Seen key ui o) seen),
          )
        ]
      ]

  -- A loop that presses the button at all shows the answer to its last read.
  pub pressed-Seen : {n : ℕ} {ui ui' : Panel} → 1 ≤ n → ((n ≡ 0) × (ui' ≡ ui)) ⊎ Seen ui' → Seen ui'
  pressed-Seen some_press (inl still) = absurd (omega (arith, some_press, still.0))
  pressed-Seen some_press (inr seen) = seen

-- ===== src/Xantrex/Panel.antt =====
-- `class XantrexUI`: its state, the buttons of the display and the way to a menu item. The
-- argument `port` tells what the kernel answers in each call of `Serial::Read`, by its number.
pub mod Route
pub mod Goto
use powerguru.Prelude.{
  ℕ, zero, suc, ◌+◌, ◌-◌, ltb, ◌==◌, Bool, true, false, ◌&&◌, List, [], ◌∷◌, ◌++◌, Option, none,
  some, Text, codes, length, take, if◌then◌else◌,
}
use powerguru.Prelude.Int.{ℤ}
use powerguru.Std.Run.{Run, done, undefined, ◌>>=◌}
use powerguru.Std.Str.{contains}
use powerguru.Serial.{Round, read}
use powerguru.Outback.Loop.{c_string, read_serial}
use powerguru.Menu.Item.{MenuItem}
use powerguru.Xantrex.Table.{get_item, set_default_values}

-- `sent` is what was written to the port, `reads` the number of calls of `Serial::Read`.
pub record Panel : Type 0 where
  pub items : List (List MenuItem)
  pub menuheading : ℕ
  pub menuitem : ℕ
  pub menudisp : Text
  pub is_open : Bool
  pub sent : Text
  pub reads : ℕ

-- `Write (buf, 1)`.
unfoldable pub press : ℕ → Panel → Panel
press key ui = record ui { sent = if ui.is_open then ui.sent ++ key ∷ [] else ui.sent }

-- `XantrexUI ()`, with the local variable of `SetDefaultValues`; the place is not set.
unfoldable pub new : MenuItem → ℕ → ℕ → Panel
new mi heading item = record {
  items = set_default_values mi;
  menuheading = heading;
  menuitem = item;
  menudisp = [];
  is_open = false;
  sent = [];
  reads = 0;
}

-- What `GetItem` returns behind the table is no item.
abbrev pub label_of : Option MenuItem → Run Text
label_of none = undefined
label_of (some item) = done item.label

abbrev pub found_item : Option MenuItem → Run MenuItem
found_item none = undefined
found_item (some item) = done item

-- `GetLabel ()`: the label of the current item.
unfoldable pub current_label : Panel → Run Text
current_label ui = label_of (get_item ui.items ui.menuheading ui.menuitem)

unfoldable pub repeat_run : ℕ → (Panel → Run Panel) → Panel → Run Panel
repeat_run zero step ui = done ui
repeat_run (suc n) step ui = step ui >>= λ ui1. repeat_run n step ui1

module _ (port : ℕ → ℕ → Round) where
  -- What `ReadSerial` gets from the next call of `Serial::Read`, for less than 100 characters. As many
  -- leave no NUL in `buffy`, and the code reads behind it.
  unfoldable pub reply : Panel → Text
  reply ui = read_serial ui.is_open (port ui.reads)

  -- `menudisp = ReadSerial ()`.
  unfoldable pub refresh : Panel → Panel
  unfolding reply
  refresh ui = record ui { menudisp = reply ui; reads = suc ui.reads }

  -- A button whose reply is displayed whatever `Read` returns: `SetPointMinus`, `SetPointPlus`,
  -- `Inverter`, `Generator`, `LedStatus`, `Version`, `SetTerminalMode`, `SelectInverter`.
  unfoldable pub simple_button : ℕ → Panel → Panel
  unfolding press
  simple_button key ui = record (press key ui) {
    menudisp = c_string (read ui.is_open (port ui.reads) []).buf;
    reads = suc ui.reads;
  }

  -- `WriteSerial (buf, nbytes)`.
  unfoldable pub write_serial : Text → ℕ → Panel → Panel
  write_serial buf nbytes ui = record ui {
    menudisp = c_string (read ui.is_open (port ui.reads) []).buf;
    sent = if ui.is_open then ui.sent ++ take nbytes buf else ui.sent;
    reads = suc ui.reads;
  }

  -- `SetupMenu`.
  unfoldable pub setup_menu : Panel → Panel
  unfolding simple_button
  setup_menu ui = record (simple_button 3 ui) { menuheading = 8; menuitem = 0 }

  -- `MenuHeadingMinus`: the label is looked up for a log message.
  unfoldable pub menu_heading_minus : Panel → Run Panel
  unfolding press refresh
  menu_heading_minus ui = do
    let heading = if ltb 1 ui.menuheading then ui.menuheading - 1 else ui.menuheading
    let ui1 = record (refresh (press b'L' ui)) { menuheading = heading; menuitem = 0 }
    label ← current_label ui1
    done ui1

  -- `MenuHeadingPlus`.
  unfoldable pub menu_heading_plus : Panel → Run Panel
  unfolding press refresh
  menu_heading_plus ui = do
    let ui1 = record (refresh (press b'R' ui)) { menuheading = ui.menuheading + 1; menuitem = 0 }
    label ← current_label ui1
    done ui1

  -- `while (retries--)` of `MenuItemMinus` and `MenuItemPlus`, the second without the test of the
  -- length of the label: an empty text is found in every text.
  unfoldable pub press_until : Bool → ℕ → ℕ → Panel → Run Panel
  unfolding press refresh
  press_until needs_label key zero ui = done ui
  press_until needs_label key (suc retries) ui =
      let ui1 = refresh (press key ui) in
      let again = press_until needs_label key retries ui1 in
      current_label ui1 >>= λ label.
      if needs_label && length label == 0
      then again
      else if contains label ui1.menudisp
      then done ui1
      else again

  -- `MenuItemMinus` goes down, to the next item.
  unfoldable pub menu_item_minus : Panel → Run Panel
  unfolding press_until
  menu_item_minus ui = press_until true b'D' 5 (record ui { menuitem = ui.menuitem + 1 })

  -- `MenuItemPlus` goes up.
  unfoldable pub menu_item_plus : Panel → Run Panel
  unfolding press_until
  menu_item_plus ui =
      press_until false b'U' 5
        (record ui { menuitem = if ltb 1 ui.menuitem then ui.menuitem - 1 else ui.menuitem })

  -- The loop of `GotoMenuStart`.
  unfoldable pub find_start : ℕ → Panel → Panel
  unfolding press refresh
  find_start zero ui = ui
  find_start (suc rounds) ui =
      let ui1 = refresh (press b'L' ui) in
      let next = find_start rounds ui1 in
      if contains (codes "Inverter") ui1.menudisp then ui1 else next

  unfoldable pub goto_menu_start : Panel → Panel
  unfolding find_start
  goto_menu_start ui = record (find_start 22 ui) { menuheading = 1; menuitem = 0 }

  -- `GotoMenuItem (mh, mi)` behind `GotoMenuStart`: the item is copied, then the buttons pressed.
  unfoldable pub goto_from_start : ℕ → ℕ → Panel → Run Panel
  goto_from_start mh mi ui1 = do
    item ← found_item (get_item ui1.items mh mi)
    ui2 ← repeat_run (mh - 1) menu_heading_plus ui1
    ui3 ← repeat_run (mi - 1) menu_item_minus ui2
    done (record ui3 { menuheading = mh; menuitem = mi })

  unfoldable pub goto_menu_item : ℕ → ℕ → Panel → Run Panel
  goto_menu_item mh mi ui = goto_from_start mh mi (goto_menu_start ui)

-- ===== src/Xantrex/Print.antt =====
-- `XantrexUI::Dump` and `DumpAliases`: what they print of the table.
use powerguru.Prelude.{ltb, List, [], ◌∷◌, ◌++◌, Text, codes, length, if◌then◌else◌}
use powerguru.Prelude.Int.{pos}
use powerguru.Std.Str.{body}
use powerguru.Std.Number.{print_int}
use powerguru.Menu.Item.{MenuItem}
use powerguru.Xantrex.Values.{clean_up_data}
use powerguru.Xantrex.Panel.{Panel}

unfoldable pub dump_row : List MenuItem → Text
dump_row [] = []
dump_row (it ∷ row) =
    body (
      print_int (pos it.headidx)
      ∷ codes ","
      ∷ print_int (pos it.itemidx)
      ∷ codes ": "
      ∷ it.label
      ∷ codes "\n"
      ∷ [])
    ++ dump_row row

unfoldable pub dump : List (List MenuItem) → Text
unfolding dump_row
dump [] = []
dump (row ∷ items) = dump_row row ++ dump items

-- `DumpAliases`, behind its two lines: the text, and `menudisp`, which `CleanUpData` overwrites.
unfoldable pub alias_row : List MenuItem → Text → Text × Text
unfolding clean_up_data
alias_row [] menudisp = ([], menudisp)
alias_row (it ∷ row) menudisp =
    let clean = clean_up_data it.label in
    let shown = alias_row row clean in
    let hidden = alias_row row menudisp in
    if ltb 0 (length it.cmdname)
    then (body (it.cmdname ∷ codes "  \t- " ∷ clean ∷ codes "\n" ∷ []) ++ shown.0, shown.1)
    else hidden

unfoldable pub alias_rows : List (List MenuItem) → Text → Text × Text
unfolding alias_row
alias_rows [] menudisp = ([], menudisp)
alias_rows (row ∷ items) menudisp =
    let (front, menudisp1) = alias_row row menudisp in
    let (back, menudisp2) = alias_rows items menudisp1 in (front ++ back, menudisp2)

unfoldable pub dump_aliases : Panel → Text × Panel
unfolding alias_rows
dump_aliases ui =
    let (rows, menudisp) = alias_rows ui.items ui.menudisp in
    (
      codes "Command Name\t\tMenu Item\n------------\t\t---------\n" ++ rows,
      record ui { menudisp = menudisp },
    )

-- ===== src/Client.antt =====
-- client/threads.cc: what the client of the daemon sends.
pub mod Dialogue
mod Examples
use powerguru.Prelude.{
  ℕ, ◌==◌, Bool, not, List, [], ◌∷◌, ◌++◌, Option, none, some, Text, codes, length, take, drop,
  if◌then◌else◌,
}
use powerguru.Std.Str.{find}
use powerguru.Commands.{Command, helo, commands, convert_action, create_command}

-- The action and its arguments, which start with the blank.
unfoldable pub split_line : Text → Text × Text
unfolding find
split_line line = elim (find (32 ∷ []) line 0) [
  | none ↦ (line, [])
  | some pos ↦ if not (pos == length line) then (take pos line, drop pos line) else (line, [])
]

-- One line of the console: the table of commands, which a look up may extend, and the text, which stays
-- from one line to the next.
unfoldable pub console_line : List (Text × Command) → Text → Text → List (Text × Command) × Text
unfolding split_line convert_action create_command
console_line table str line =
    let (action, args) = split_line line in
    let (table1, command) = convert_action table action in (table1, create_command command args str)

-- The texts that the loop writes to the socket.
unfoldable pub console_lines : List (Text × Command) → Text → List Text → List Text
unfolding console_line
console_lines table str [] = []
console_lines table str (line ∷ lines) =
    let (table1, str1) = console_line table str line in str1 ∷ console_lines table1 str1 lines

-- `console_handler`. At the end of the input `getline` fails once before the loop sees it: `rest` is then
-- empty, or the last line again where no line end stands behind that.
unfoldable pub console_handler : List Text → Text → List Text
unfolding console_lines
console_handler lines rest = console_lines commands [] (lines ++ rest ∷ [])

-- The greeting of `daemon_handler`.
unfoldable pub greeting : Text → Text → Text
unfolding create_command
greeting host_name user = create_command helo (host_name ++ (32 ∷ user)) []

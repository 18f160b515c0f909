-- ===== src/Commands.antt =====
-- lib/commands.cc and lib/commands.h: the commands that a client sends as XML.
pub mod Elements
mod Examples
use powerguru.Prelude.{
  ℕ, suc, Bool, true, false, List, [], ◌∷◌, ◌++◌, Option, none, some, Text, codes, take, drop,
  if◌then◌else◌,
}
use powerguru.Std.Str.{eq_text, find, body}

-- `cmd_t`.
pub data Command : Type 0 where
  nop list poll helo result event : Command

-- The table that the constructor fills.
abbrev pub commands : List (Text × Command)
commands =
    (codes "nop", nop) ∷ (codes "list", list) ∷ (codes "poll", poll) ∷ (codes "helo", helo) ∷ []

-- `convertAction`: `_commands[cmd]` adds an unknown name with the value 0, which is `NOP`.
unfoldable pub convert_action : List (Text × Command) → Text → List (Text × Command) × Command
unfolding eq_text
convert_action [] name = ((name, nop) ∷ [], nop)
convert_action ((tag, c) ∷ table) name =
    let (rest, found) = convert_action table name in
    if eq_text tag name then ((tag, c) ∷ table, c) else ((tag, c) ∷ rest, found)

-- The data of a greeting before other pieces: the name of the host, and behind the first blank that of
-- the user.
unfoldable pub helo_data : Text → List Text → List Text
unfolding find
helo_data args rest = elim (find (32 ∷ []) args 0) [
  | none ↦ codes "<hostname>" ∷ args ∷ codes "</hostname>" ∷ rest
  | some pos ↦
      codes "<hostname>"
      ∷ take pos args
      ∷ codes "</hostname>"
      ∷ codes "<user>"
      ∷ drop (suc pos) args
      ∷ codes "</user>"
      ∷ rest
]

-- `createCommand`: a result is appended to what `str` holds, the others replace it. An event has no
-- case.
unfoldable pub create_command : Command → Text → Text → Text
unfolding helo_data
create_command list args str =
    body (codes "<command>" ∷ codes "<list>" ∷ args ∷ codes "</list>" ∷ codes "</command>\n" ∷ [])
create_command poll args str =
    body (codes "<command>" ∷ codes "<poll>" ∷ args ∷ codes "</poll>" ∷ codes "</command>\n" ∷ [])
create_command nop args str =
    body (codes "<command>" ∷ codes "<nop>" ∷ args ∷ codes "</nop>" ∷ codes "</command>\n" ∷ [])
create_command result args str = str ++ body (codes "<result>" ∷ args ∷ codes "</result>" ∷ [])
create_command helo args str = body (
    codes "<command>"
    ∷ codes "<helo>"
    ∷ helo_data args (codes "</helo>" ∷ codes "</command>\n" ∷ []))
create_command event args str = body (codes "<command>" ∷ codes "</command>\n" ∷ [])

-- `execCommand` runs nothing: every command has the same result.
unfoldable pub exec_command : Text → Text
unfolding create_command
exec_command str = create_command result (codes "Iko Iko") str

-- ===== src/Config.antt =====
-- lib/rc.cc and lib/rc.h: the configuration files. What a file holds is an argument.
pub mod Lines
mod Examples
use powerguru.Prelude.{
  ℕ, zero, suc, ◌+◌, ◌==◌, Bool, true, false, not, List, [], ◌∷◌, ◌++◌, Option, none, some, Text,
  codes, length, if◌then◌else◌,
}
use powerguru.Std.Str.{eq_text}
use powerguru.Msgs.State.{ErrorCode, success, not_supported}

pub record Settings : Type 0 where
  pub dbhost : Text
  pub dbuser : Text
  pub dbpasswd : Text
  pub dbname : Text
  pub devmode : Text
  pub device : Text

-- An `ifstream` seen by `>>`: the words that are left, whether white space stands behind the last one,
-- and `eof ()`.
pub record Stream : Type 0 where
  pub words : List Text
  pub space_at_end : Bool
  pub eof : Bool

-- `in >> s`: behind the last word nothing is stored.
abbrev pub extract_word : Text → List Text → Bool → Bool → Text × Stream
extract_word s [] b e = (s, record { words = []; space_at_end = b; eof = true })
extract_word s (word ∷ []) b e = (word, record { words = []; space_at_end = b; eof = not b })
extract_word s (word ∷ next ∷ words) b e =
    (word, record { words = next ∷ words; space_at_end = b; eof = e })

unfoldable pub extract : Text → Stream → Text × Stream
extract s stream = extract_word s stream.words stream.space_at_end stream.eof

-- The tests of `variable` behind `set`.
unfoldable pub assign : Text → Text → Settings → Settings
unfolding eq_text
assign variable value c = record {
  dbhost = if eq_text variable (codes "dbhost") then value else c.dbhost;
  dbuser = if eq_text variable (codes "dbuser") then value else c.dbuser;
  dbpasswd = if eq_text variable (codes "dbpasswd") then value else c.dbpasswd;
  dbname = if eq_text variable (codes "dbname") then value else c.dbname;
  devmode = if eq_text variable (codes "devmode") then value else c.devmode;
  device = if eq_text variable (codes "device") then value else c.device;
}

-- The three local variables.
pub record Locals : Type 0 where
  pub action : Text
  pub variable : Text
  pub value : Text

-- `while (!in.eof ())`: a comment mark skips itself alone.
unfoldable pub read_lines : ℕ → Locals → Stream → Settings → Settings
unfolding extract assign eq_text
read_lines zero v stream c = c
read_lines (suc fuel) v stream c =
    let (action, rest) = extract v.action stream in
    let (variable, rest1) = extract v.variable rest in
    let (value, rest2) = extract v.value rest1 in
    let c' = if eq_text action (codes "set") then assign variable value c else c in
    let after_comment = read_lines fuel (record v { action = action }) rest c in
    let after_line =
      read_lines fuel (record { action = action; variable = variable; value = value }) rest2 c' in
    if stream.eof then c else if eq_text action (codes "#") then after_comment else after_line

-- Each round reads a word or sets `eof`, so one round more than there are words is enough.
unfoldable pub parse_stream : Stream → Settings → Settings
unfolding read_lines
parse_stream stream c =
    read_lines (length stream.words + 2) (record { action = []; variable = []; value = [] }) stream
      c

-- What `stat` and `open` find under a name.
pub data File : Type 0 where
  missing unreadable : File
  readable : List Text → Bool → File

unfoldable pub parse_file : (Text → File) → Text → Settings → Settings × ErrorCode
unfolding parse_stream
parse_file files filespec c =
    if length filespec == 0 then (c, not_supported) else elim (files filespec) [
      | missing ↦ (c, not_supported)
      | unreadable ↦ (c, not_supported)
      | readable words space ↦
          (parse_stream (record { words = words; space_at_end = space; eof = false }) c, success)
    ]

-- `load_files`: the system's file, the local one, and the one in the home directory, if there is one.
unfoldable pub load_files : (Text → File) → Option Text → Settings → Settings × ErrorCode
unfolding parse_file
load_files files home c =
    let c1 = (parse_file files (codes "/etc/powerguru/config") c).0 in
    let c2 = (parse_file files (codes "/usr/local/etc/powerguru/config") c1).0 in
    elim home [
      | some directory ↦ parse_file files (directory ++ codes "/.powerguru/config") c2
      | none ↦ (c2, not_supported)
    ]

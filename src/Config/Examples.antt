-- ===== src/Config/Examples.antt =====
-- A configuration file.
use powerguru.Prelude.{◌≡◌, refl, true, List, [], ◌∷◌, Text, codes}
use powerguru.Std.Str.{eq_text}
use powerguru.Msgs.State.{success}
use powerguru.Config.{Settings, File, readable, parse_file}
use powerguru.Config.Lines.{Line, setting, commented, file_words, last_value, parse_file-settled}

abbrev no_settings : Settings
no_settings = record {
  dbhost = [];
  dbuser = [];
  dbpasswd = [];
  dbname = [];
  devmode = [];
  device = [];
}

-- The host is set, and set again in a comment.
abbrev lines : List Line
lines =
    setting (codes "dbhost") (codes "shed")
    ∷ setting (codes "dbname") (codes "meters")
    ∷ commented (codes "dbhost") (codes "garden")
    ∷ []

abbrev files : Text → File
files name = readable (file_words lines) true

parse_file-settled_example :
    parse_file files (codes "config") no_settings
    ≡ (record no_settings { dbhost = codes "garden"; dbname = codes "meters" }, success)
unfolding last_value eq_text
parse_file-settled_example =
    parse_file-settled files (codes "config") lines true no_settings (λ e. cc) refl

-- ===== src/Config/Lines.antt =====
-- What a file of settings does.
use powerguru.Prelude.{
  ℕ, zero, suc, ◌+◌, ◌≤◌, ◌≡◌, ◌≢◌, refl, ◌∙◌, ap, Bool, true, false, not, List, [], ◌∷◌, Text,
  codes, length, if◌then◌else◌, arith, ◌==◌,
}
use powerguru.Std.Str.{eq_text}
use powerguru.Msgs.State.{ErrorCode, success, not_supported}
use powerguru.Config.{
  Settings, Stream, Locals, assign, read_lines, parse_stream, File, missing, unreadable, readable,
  parse_file,
}

-- A line that sets a variable, or one before which a comment mark and a blank stand.
pub data Line : Type 0 where
  setting commented : Text → Text → Line

abbrev pub file_words : List Line → List Text
file_words [] = []
file_words (setting variable value ∷ lines) = codes "set" ∷ variable ∷ value ∷ file_words lines
file_words (commented variable value ∷ lines) =
    codes "#" ∷ codes "set" ∷ variable ∷ value ∷ file_words lines

-- The settings with the values of all lines, the later ones last.
abbrev pub apply : List Line → Settings → Settings
apply [] c = c
apply (setting variable value ∷ lines) c = apply lines (assign variable value c)
apply (commented variable value ∷ lines) c = apply lines (assign variable value c)

keep : (b : Bool) (v w : Text) → (if b then v else (if b then v else w)) ≡ (if b then v else w)
keep true v w = refl
keep false v w = refl

-- To set a variable again to the same value changes nothing.
assign_again :
    (variable value : Text) (c : Settings)
    → assign variable value (assign variable value c) ≡ assign variable value c
unfolding assign
assign_again variable value c = λ i. record {
  dbhost = keep (eq_text variable (codes "dbhost")) value c.dbhost i;
  dbuser = keep (eq_text variable (codes "dbuser")) value c.dbuser i;
  dbpasswd = keep (eq_text variable (codes "dbpasswd")) value c.dbpasswd i;
  dbname = keep (eq_text variable (codes "dbname")) value c.dbname i;
  devmode = keep (eq_text variable (codes "devmode")) value c.devmode i;
  device = keep (eq_text variable (codes "device")) value c.device i;
}

abbrev words_left : List Text → Bool → Bool → Stream
words_left words b e = record { words = words; space_at_end = b; eof = e }

-- Behind the last line, a round stores what is stored already.
last_round :
    (fuel : ℕ) (variable value : Text) (b : Bool) (c : Settings)
    → read_lines
        (suc (suc fuel))
        (record { action = codes "set"; variable = variable; value = value })
        (words_left [] b (not b))
        (assign variable value c)
      ≡ assign variable value c
unfolding read_lines
last_round fuel variable value true c = assign_again variable value c
last_round fuel variable value false c = refl

read_lines-set :
    (fuel : ℕ) (v : Locals) (variable value next : Text) (rest : List Text) (b : Bool)
    (c : Settings)
    → read_lines (suc fuel) v (words_left (codes "set" ∷ variable ∷ value ∷ next ∷ rest) b false) c
      ≡ read_lines fuel
          (record { action = codes "set"; variable = variable; value = value })
          (words_left (next ∷ rest) b false)
          (assign variable value c)
unfolding read_lines
read_lines-set fuel v variable value next rest b c = refl

read_lines-last :
    (fuel : ℕ) (v : Locals) (variable value : Text) (b : Bool) (c : Settings)
    → read_lines (suc fuel) v (words_left (codes "set" ∷ variable ∷ value ∷ []) b false) c
      ≡ read_lines fuel
          (record { action = codes "set"; variable = variable; value = value })
          (words_left [] b (not b))
          (assign variable value c)
unfolding read_lines
read_lines-last fuel v variable value b c = refl

read_lines-comment :
    (fuel : ℕ) (v : Locals) (variable value : Text) (rest : List Text) (b : Bool) (c : Settings)
    → read_lines
        (suc fuel)
        v
        (words_left (codes "#" ∷ codes "set" ∷ variable ∷ value ∷ rest) b false)
        c
      ≡ read_lines fuel
          (record v { action = codes "#" })
          (words_left (codes "set" ∷ variable ∷ value ∷ rest) b false)
          c
unfolding read_lines
read_lines-comment fuel v variable value rest b c = refl

-- From a line that sets a variable, the settings of all lines are stored.
read_lines-apply :
    (fuel : ℕ) (v : Locals) (variable value : Text) (lines : List Line) (b : Bool) (c : Settings)
    → length (file_words lines) + 3 ≤ fuel
    → read_lines fuel v (words_left (codes "set" ∷ variable ∷ value ∷ file_words lines) b false) c
      ≡ apply lines (assign variable value c)
read_lines-apply zero v variable value lines b c h = absurd (omega arith)
read_lines-apply (suc zero) v variable value lines b c h = absurd (omega arith)
read_lines-apply (suc (suc zero)) v variable value lines b c h = absurd (omega arith)
read_lines-apply (suc (suc (suc fuel))) v variable value [] b c h =
    read_lines-last (suc (suc fuel)) v variable value b c ∙ last_round fuel variable value b c
read_lines-apply (suc (suc (suc fuel))) v variable value (setting x y ∷ lines) b c h =
    read_lines-set (suc (suc fuel)) v variable value (codes "set") (x ∷ y ∷ file_words lines) b c
    ∙ read_lines-apply (suc (suc fuel)) _ x y lines b (assign variable value c) (omega arith)
read_lines-apply (suc (suc (suc fuel))) v variable value (commented x y ∷ lines) b c h =
    read_lines-set (suc (suc fuel)) v variable value (codes "#")
      (codes "set" ∷ x ∷ y ∷ file_words lines) b c
    ∙ read_lines-comment (suc fuel) _ x y (file_words lines) b (assign variable value c)
    ∙ read_lines-apply (suc fuel) _ x y lines b (assign variable value c) (omega arith)

read_lines-commented :
    (fuel : ℕ) (v : Locals) (variable value : Text) (lines : List Line) (b : Bool) (c : Settings)
    → length (file_words lines) + 4 ≤ fuel
    → read_lines fuel v
        (words_left (codes "#" ∷ codes "set" ∷ variable ∷ value ∷ file_words lines) b false)
        c
      ≡ apply lines (assign variable value c)
read_lines-commented zero v variable value lines b c h = absurd (omega arith)
read_lines-commented (suc fuel) v variable value lines b c h =
    read_lines-comment fuel v variable value (file_words lines) b c
    ∙ read_lines-apply fuel _ variable value lines b c (omega arith)

parse_stream-apply :
    (lines : List Line) (b : Bool) (c : Settings)
    → parse_stream (words_left (file_words lines) b false) c ≡ apply lines c
unfolding parse_stream
parse_stream-apply [] b c = refl
parse_stream-apply (setting variable value ∷ lines) b c =
    read_lines-apply _ _ variable value lines b c (omega arith)
parse_stream-apply (commented variable value ∷ lines) b c =
    read_lines-commented _ _ variable value lines b c (omega arith)

-- The value of the last line that sets a variable, or what it was.
unfoldable pub last_value : Text → List Line → Text → Text
unfolding eq_text
last_value name [] old = old
last_value name (setting variable value ∷ lines) old =
    last_value name lines (if eq_text variable name then value else old)
last_value name (commented variable value ∷ lines) old =
    last_value name lines (if eq_text variable name then value else old)

abbrev pub settled : List Line → Settings → Settings
settled lines c = record {
  dbhost = last_value (codes "dbhost") lines c.dbhost;
  dbuser = last_value (codes "dbuser") lines c.dbuser;
  dbpasswd = last_value (codes "dbpasswd") lines c.dbpasswd;
  dbname = last_value (codes "dbname") lines c.dbname;
  devmode = last_value (codes "devmode") lines c.devmode;
  device = last_value (codes "device") lines c.device;
}

apply-settled : (lines : List Line) (c : Settings) → apply lines c ≡ settled lines c
unfolding last_value assign
apply-settled [] c = refl
apply-settled (setting variable value ∷ lines) c = apply-settled lines (assign variable value c)
apply-settled (commented variable value ∷ lines) c = apply-settled lines (assign variable value c)

-- Where a file that can be read has lines of the form `set variable value` or `# set variable value`,
-- each of the six settings has the value of the last line that names it, or stays as it was. The lines
-- that are commented out count: the mark is skipped alone.
pub parse_file-settled :
    (files : Text → File) (filespec : Text) (lines : List Line) (b : Bool) (c : Settings)
    → filespec ≢ []
    → files filespec ≡ readable (file_words lines) b
    → parse_file files filespec c ≡ (settled lines c, success)
unfolding parse_file
parse_file-settled files [] lines b c n e = absurd (n refl)
parse_file-settled files (x ∷ filespec) lines b c n e =
    let named : (length (x ∷ filespec) == 0) ≡ false = ground arith in
    rw named (
      ap {A = File} {B = Settings × ErrorCode}
        (λ f. elim f [
          | missing ↦ (c, not_supported)
          | unreadable ↦ (c, not_supported)
          | readable words space ↦ (parse_stream (words_left words space false) c, success)
        ])
        e
      ∙ ap (λ d. (d, success)) (parse_stream-apply lines b c ∙ apply-settled lines c))

-- ===== src/Client/Dialogue.antt =====
-- The console of a client and the thread of the daemon that serves it.
use powerguru.Prelude.{
  ◌==◌, ◌≡◌, ◌≢◌, refl, sym, ap, ◌∙◌, false, if◌then◌else◌, List, [], ◌∷◌, ◌++◌, Option, none, some,
  Text, codes, length, length-append, append-nil, drop, map, All, arith, inl, inr, Bool-cases,
}
use powerguru.Std.Str.{eq_text, find, starts_with}
use powerguru.Std.Convert.{Result, done}
use powerguru.Commands.{
  Command, nop, list, poll, helo, result, event, commands, convert_action, create_command,
}
use powerguru.Commands.Elements.{find_blank, take-append}
use powerguru.Xml.{LibXml}
use powerguru.Daemon.Client.{Session, received, end_of_file, client_loop, client_handler}
use powerguru.Daemon.Serve.{
  Request, greet, ask, wire, IsRequest, Parses, serve_all, client_loop-serve_all,
}
use powerguru.Client.{split_line, console_line, console_lines, console_handler, greeting}

-- A line of the console: a word, and behind a blank its arguments.
pub record Line : Type 0 where
  pub word : Text
  pub args : Option Text

abbrev pub behind : Option Text → Text
behind none = []
behind (some args) = 32 ∷ args

abbrev pub text_of : Line → Text
text_of line = line.word ++ behind line.args

-- What the daemon is asked by a line: a greeting typed at the console has an empty host.
abbrev pub asked : Command → Option Text → Request
asked helo (some args) = greet [] args
asked command args = ask command (behind args)

-- The words of the console.
unfoldable pub command_at : Text → Command
unfolding eq_text
command_at word =
    if eq_text (codes "nop") word
    then nop
    else if eq_text (codes "list") word
    then list
    else if eq_text (codes "poll") word
    then poll
    else if eq_text (codes "helo") word
    then helo
    else nop

unfoldable pub request_of : Line → Request
unfolding command_at
request_of line = asked (command_at line.word) line.args

-- The word has no blank, and it is not the greeting alone.
pub record IsLine (line : Line) : Type 0 where
  pub one_word : All (λ c. c ≢ 32) line.word
  pub no_greeting : (line.args ≡ none) → command_at line.word ≢ helo

find_no_blank : (s : Text) → All (λ c. c ≢ 32) s → find (32 ∷ []) s 0 ≡ none
unfolding find starts_with
find_no_blank [] h = refl
find_no_blank (c ∷ s) h = ground (arith, find_no_blank s h.1)

drop-length : (s t : Text) → drop (length s) (s ++ t) ≡ t
drop-length [] t = refl
drop-length (c ∷ s) t = drop-length s t

split_line-typed :
    (word : Text) (args : Option Text)
    → All (λ c. c ≢ 32) word
    → split_line (word ++ behind args) ≡ (word, behind args)
unfolding split_line
split_line-typed word none h =
    let same : word ++ [] ≡ word = append-nil word in
    rw same (rw (find_no_blank word h, split_line) refl)
split_line-typed word (some args) h =
    let differs : (length word == length (word ++ (32 ∷ args))) ≡ false =
      ground (arith, length-append word (32 ∷ args)) in
    rw (find_blank word args h, split_line)
      (rw differs (rw (take-append word (32 ∷ args), drop-length word (32 ∷ args)) refl))

-- A look up does not change what the next one finds.
convert_action-again :
    (table : List (Text × Command)) (first word : Text)
    → (convert_action (convert_action table first).0 word).1 ≡ (convert_action table word).1
unfolding convert_action
convert_action-again [] first word = elim (Bool-cases (eq_text first word)) [
  | inl e ↦ rw e refl
  | inr e ↦ rw e refl
]
convert_action-again ((tag, c) ∷ table) first word = elim (Bool-cases (eq_text tag first)) [
  | inl e ↦ rw e refl
  | inr e ↦ rw e (elim (Bool-cases (eq_text tag word)) [
    | inl e' ↦ rw e' refl
    | inr e' ↦ rw e' (convert_action-again table first word)
  ])
]

-- The table holds neither results nor events.
abbrev Typed : Command → Type 0
Typed result = ⊥
Typed event = ⊥
Typed _ = Unit

-- The table of the code has the words.
command_at-table :
    (word : Text) → ((convert_action commands word).1 ≡ command_at word) × Typed (command_at word)
unfolding convert_action command_at
command_at-table word = elim (Bool-cases (eq_text (codes "nop") word)) [
  | inl e ↦ rw e (refl, tt)
  | inr e1 ↦ elim (Bool-cases (eq_text (codes "list") word)) [
    | inl e ↦ rw (e1, e) (refl, tt)
    | inr e2 ↦ elim (Bool-cases (eq_text (codes "poll") word)) [
      | inl e ↦ rw (e1, e2, e) (refl, tt)
      | inr e3 ↦ elim (Bool-cases (eq_text (codes "helo") word)) [
        | inl e ↦ rw (e1, e2, e3, e) (refl, tt)
        | inr e4 ↦ rw (e1, e2, e3, e4) (refl, tt)
      ]
    ]
  ]
]

-- What a command writes is what its request is on the wire.
create_command-asked :
    (command : Command) (args : Option Text) (str : Text)
    → Typed command
    → (args ≡ none → command ≢ helo)
    → (create_command command (behind args) str ≡ wire (asked command args))
      × IsRequest (asked command args)
unfolding create_command wire
create_command-asked nop args str t h = (refl, tt)
create_command-asked list args str t h = (refl, tt)
create_command-asked poll args str t h = (refl, tt)
create_command-asked helo none str t h = absurd (h refl refl)
create_command-asked helo (some args) str t h = (refl, (tt, tt))
create_command-asked result args str t h = elim t [ ]
create_command-asked event args str t h = elim t [ ]

console_line-typed :
    (table : List (Text × Command)) (str word : Text) (args : Option Text)
    → All (λ c. c ≢ 32) word
    → console_line table str (word ++ behind args) ≡ (
      (convert_action table word).0,
      create_command (convert_action table word).1 (behind args) str,
    )
unfolding console_line
console_line-typed table str word args h =
    ap
      (λ p.
        let (table1, command) = convert_action table p.0 in
        (table1, create_command command p.1 str))
      (split_line-typed word args h)

IsRequest-line : (line : Line) → IsLine line → IsRequest (request_of line)
unfolding request_of
IsRequest-line line h =
    (create_command-asked (command_at line.word) line.args [] (command_at-table line.word).1
      h.no_greeting).1

-- The text of a line on the wire, whatever was typed before.
written_line :
    (table : List (Text × Command)) (str : Text) (line : Line)
    → ((w : Text) → (convert_action table w).1 ≡ command_at w)
    → IsLine line
    → (table1 : List (Text × Command)) × (console_line table str (text_of line)
        ≡ (table1, wire (request_of line)))
      × ((w : Text) → (convert_action table1 w).1 ≡ command_at w)
unfolding request_of
written_line table str line agree h =
    let asked_line =
      (create_command-asked (command_at line.word) line.args str (command_at-table line.word).1
        h.no_greeting).0 in
    let next = (convert_action table line.word).0 in
    (
      next,
      console_line-typed table str line.word line.args h.one_word
          ∙ ap (λ c. (next, create_command c (behind line.args) str)) (agree line.word)
          ∙ ap (λ t. (next, t)) asked_line,
      λ w. convert_action-again table line.word w ∙ agree w,
    )

console_lines-wire :
    (table : List (Text × Command)) (str : Text) (lines : List Line)
    → ((w : Text) → (convert_action table w).1 ≡ command_at w)
    → All IsLine lines
    → console_lines table str (map text_of lines) ≡ map (λ line. wire (request_of line)) lines
unfolding console_lines
console_lines-wire table str [] agree h = refl
console_lines-wire table str (line ∷ lines) agree h =
    let (table1, run, agree1) = written_line table str line agree (h.0) in
    ap (λ p. p.1 ∷ console_lines p.0 p.1 (map text_of lines)) run
    ∙ ap (λ ts. wire (request_of line) ∷ ts)
        (console_lines-wire table1 (wire (request_of line)) lines agree1 (h.1))

map-map {ℓ κ μ} :
    {A : Type ℓ} {B : Type κ} {C : Type μ} (f : B → C) (g : A → B) (xs : List A)
    → map f (map g xs) ≡ map (λ x. f (g x)) xs
map-map f g [] = refl
map-map f g (x ∷ xs) = ap (λ ys. f (g x) ∷ ys) (map-map f g xs)

All-requests : (lines : List Line) → All IsLine lines → All IsRequest (map request_of lines)
All-requests [] h = tt
All-requests (line ∷ lines) h = (IsRequest-line line (h.0), All-requests lines (h.1))

map-append : (f : Line → Text) (xs ys : List Line) → map f (xs ++ ys) ≡ map f xs ++ map f ys
map-append f [] ys = refl
map-append f (x ∷ xs) ys = ap (λ zs. f x ∷ zs) (map-append f xs ys)

-- What the daemon does with the lines of the console, and with the one that is sent when the input
-- ends.
abbrev pub dialogue : LibXml → Text → Text → List Line → Line → Result Session
dialogue lib host_name user lines rest =
    client_handler lib host_name (some user) (received (greeting host_name user))
      (map received (console_handler (map text_of lines) (text_of rest)) ++ end_of_file ∷ [])

-- A client that greets the daemon and then sends the lines of its console, each a word without a blank
-- and perhaps arguments, where the word helo has arguments, is served one request for each line, where
-- the parser of the daemon reads each of them: `list` and `poll` with the arguments, `helo` as a greeting
-- with an empty host, and every other word as the command that does nothing. The greeting of the client
-- itself is not looked at, and stores no host.
pub client_handler-console :
    (lib : LibXml) (host_name user : Text) (lines : List Line) (rest : Line)
    → All IsLine (lines ++ rest ∷ [])
    → All (Parses lib) (map request_of (lines ++ rest ∷ []))
    → dialogue lib host_name user lines rest
      ≡ done (
          serve_all
            (map request_of (lines ++ rest ∷ []))
            (record { hostname = []; sent = greeting host_name user ∷ [] }))
unfolding client_handler console_handler greeting
client_handler-console lib host_name user lines rest h p =
    let all_lines = lines ++ rest ∷ [] in
    let s : Session = record { hostname = []; sent = greeting host_name user ∷ [] } in
    let written : console_handler (map text_of lines) (text_of rest)
        ≡ map wire (map request_of all_lines) =
      ap (console_lines commands []) (sym (map-append text_of lines (rest ∷ [])))
      ∙ console_lines-wire commands [] all_lines (λ w. (command_at-table w).0) h
      ∙ sym (map-map wire request_of all_lines) in
    ap (λ texts. client_loop lib (map received texts ++ end_of_file ∷ []) s) written
    ∙ ap (λ incoming. client_loop lib (incoming ++ end_of_file ∷ []) s)
        (map-map received wire (map request_of all_lines))
    ∙ client_loop-serve_all lib (map request_of all_lines) s (All-requests all_lines h) p

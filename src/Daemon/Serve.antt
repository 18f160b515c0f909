-- ===== src/Daemon/Serve.antt =====
-- The daemon and its client: what the thread makes of the commands that `createCommand` formats.
use powerguru.Prelude.{
  ℕ, zero, suc, ◌==◌, ◌≡◌, ◌≢◌, refl, ap, ◌∙◌, true, false, List, [], ◌∷◌, ◌++◌, none, some, Text,
  codes, length, map, All, arith, ◌⊎◌, inl, inr,
}
use powerguru.Std.Str.{find, starts_with}
use powerguru.Std.Convert.{Result, done, null_pointer, ◌>>=◌}
use powerguru.Network.Receive.{filled, is_xml}
use powerguru.Msgs.Trees.{Tree, leaf, branch, Forest, nil, grow}
use powerguru.Commands.{Command, nop, list, poll, create_command, exec_command}
use powerguru.Commands.Elements.{command_of}
use powerguru.Xml.{
  LibNode, element, text, LibNodes, last, sibling, Root, LibXml, first_line, extract_value,
  extract_element, parse_mem, set_nodes, xml_get,
}
use powerguru.Daemon.Client.{
  Session, Incoming, received, end_of_file, buffer_size, answer, handle_xml, client_loop,
}

-- What a client asks for.
pub data Request : Type 0 where
  greet : Text → Text → Request
  ask : Command → Text → Request

-- The text of a request on the wire, and its tree.
unfoldable pub wire : Request → Text
wire (greet host user) =
    codes "<command><helo><hostname>"
    ++ host
    ++ codes "</hostname><user>"
    ++ user
    ++ codes "</user></helo></command>\n"
wire (ask list args) = codes "<command><list>" ++ args ++ codes "</list></command>\n"
wire (ask poll args) = codes "<command><poll>" ++ args ++ codes "</poll></command>\n"
wire (ask _ args) = codes "<command><nop>" ++ args ++ codes "</nop></command>\n"

abbrev pub element_of : Command → Text
element_of list = codes "list"
element_of poll = codes "poll"
element_of _ = codes "nop"

abbrev pub tree_of : Request → Tree
tree_of (greet host user) = command_of (
    branch (codes "helo") []
      (grow (leaf (codes "hostname") [] host) (grow (leaf (codes "user") [] user) nil)))
tree_of (ask command args) = command_of (leaf (element_of command) [] args)

-- The nodes that libxml makes of a tree without attributes: an empty text is no node.
abbrev pub text_nodes : Text → LibNodes
text_nodes [] = last
text_nodes (c ∷ s) = sibling (text (c ∷ s)) last

unfoldable mutual
  pub node_of : Tree → LibNode
  node_of (leaf name attributes t) = element name [] (text_nodes t)
  node_of (branch name attributes forest) = element name [] (nodes_of forest)

  pub nodes_of : Forest → LibNodes
  nodes_of nil = last
  nodes_of (grow tree forest) = sibling (node_of tree) (nodes_of forest)

abbrev pub root_of : Tree → Root
root_of (leaf name attributes t) = (name, [], text_nodes t)
root_of (branch name attributes forest) = (name, [], nodes_of forest)

-- A greeting of a host whose name has neither a blank nor a line end, or one of three commands.
abbrev pub IsRequest : Request → Type 0
IsRequest (greet host user) = All (λ c. c ≢ 32) host × All (λ c. c ≢ 10) host
IsRequest (ask list args) = Unit {0}
IsRequest (ask poll args) = Unit {0}
IsRequest (ask nop args) = Unit {0}
IsRequest _ = ⊥

-- The daemon as it looks from outside: a greeting stores the name of the host, and a command has a
-- reply, the buffer of 4096 bytes in which it came and the result.
abbrev pub serve : Request → Session → Session
serve (greet host user) s = record s { hostname = host }
serve (ask command args) s = record s {
  sent = s.sent ++ (filled 4096 (wire (ask command args)) ++ codes "<result>Iko Iko</result>") ∷ [];
}

unfoldable pub serve_all : List Request → Session → Session
serve_all [] s = s
serve_all (r ∷ rs) s = serve_all rs (serve r s)

-- The document that the parser makes of a request in the buffer of the thread.
abbrev pub Parses : LibXml → Request → Type 0
Parses lib r = lib.parse_memory (filled buffer_size (wire r)) ≡ some (root_of (tree_of r))

find-none : (s : Text) → All (λ c. c ≢ 10) s → find (10 ∷ []) s 0 ≡ none
unfolding find starts_with
find-none [] h = refl
find-none (c ∷ s) h = ground (arith, find-none s h.1)

first_line_lem : (s : Text) → All (λ c. c ≢ 10) s → first_line s ≡ s
unfolding first_line
first_line_lem s h = rw (find-none s h, first_line) refl

length-filled : (size : ℕ) (s : Text) → length (filled size s) ≡ size
unfolding filled
length-filled zero s = refl
length-filled (suc size) [] = ap suc (length-filled size [])
length-filled (suc size) (c ∷ s) = ap suc (length-filled size s)

not_empty : (s : Text) → (length (filled buffer_size s) == 0) ≡ false
not_empty s = ap (λ n. n == 0) (length-filled buffer_size s)

is_xml-wire : (r : Request) → IsRequest r → is_xml (wire r) ≡ true
unfolding is_xml wire
is_xml-wire (greet host user) h = refl
is_xml-wire (ask list args) h = refl
is_xml-wire (ask poll args) h = refl
is_xml-wire (ask nop args) h = refl
is_xml-wire _ h = elim h [ ]

exec_command-reply : (str : Text) → exec_command str ≡ str ++ codes "<result>Iko Iko</result>"
unfolding exec_command create_command
exec_command-reply str = refl

module _ (lib : LibXml) where
  extract_value-text : (t : Text) → All (λ c. c ≢ 10) t → extract_value lib (text_nodes t) ≡ t
  unfolding extract_value
  extract_value-text [] h = refl
  extract_value-text (c ∷ t) h =
      rw (lib.node_content-text (c ∷ t), extract_value) (first_line_lem (c ∷ t) h)

  -- What the thread makes of the element below the root.
  answer_root : Text → Root → Session → Result Session
  answer_root str root s = set_nodes lib (some root) none >>= λ p.
      xml_get p.0 0 >>= λ n. elim n [ none ↦ null_pointer | some n ↦ answer str n s ]

  handle_xml-root :
      (str : Text) (root : Root) (s : Session)
      → (length str == 0) ≡ false
      → lib.parse_memory str ≡ some root
      → handle_xml lib str s ≡ answer_root str root s
  unfolding handle_xml answer_root
  handle_xml-root str root s e p = rw (e, p, parse_mem) refl

  answer_root-greet :
      (str host user : Text) (s : Session)
      → answer_root str (root_of (tree_of (greet host user))) s
        ≡ done (record s { hostname = extract_value lib (text_nodes host) })
  unfolding answer_root set_nodes extract_element node_of xml_get answer
  answer_root-greet str [] [] s = refl
  answer_root-greet str [] (c ∷ user) s = refl
  answer_root-greet str (c ∷ host) [] s = refl
  answer_root-greet str (c ∷ host) (d ∷ user) s = refl

  answer_root-ask :
      (str args : Text) (command : Command) (s : Session)
      → IsRequest (ask command args)
      → answer_root str (root_of (tree_of (ask command args))) s
        ≡ done (record s { sent = s.sent ++ exec_command str ∷ [] })
  unfolding answer_root set_nodes extract_element node_of xml_get answer
  answer_root-ask str [] list s h = refl
  answer_root-ask str (c ∷ args) list s h = refl
  answer_root-ask str [] poll s h = refl
  answer_root-ask str (c ∷ args) poll s h = refl
  answer_root-ask str [] nop s h = refl
  answer_root-ask str (c ∷ args) nop s h = refl
  answer_root-ask str args _ s h = elim h [ ]

  answer_root-serve :
      (r : Request) (s : Session)
      → IsRequest r
      → answer_root (filled buffer_size (wire r)) (root_of (tree_of r)) s ≡ done (serve r s)
  answer_root-serve (greet host user) s h =
      answer_root-greet (filled buffer_size (wire (greet host user))) host user s
      ∙ ap (λ t. done (record s { hostname = t })) (extract_value-text host h.1)
  answer_root-serve (ask command args) s h =
      answer_root-ask (filled buffer_size (wire (ask command args))) args command s h
      ∙ ap (λ t. done (record s { sent = s.sent ++ t ∷ [] }))
          (exec_command-reply (filled buffer_size (wire (ask command args))))

  -- The thread refines the outside view: over greetings, of hosts without a blank or a line end in the
  -- name, and commands, up to the end of the connection, where the parser makes of each buffer the tree
  -- of the request in it, it stores the host of the last greeting and answers each command, in their
  -- order. A reply is the whole buffer of the request, with the text of the result behind it.
  pub client_loop-serve_all :
      (rs : List Request) (s : Session)
      → All IsRequest rs
      → All (Parses lib) rs
      → client_loop lib (map (λ r. received (wire r)) rs ++ end_of_file ∷ []) s
        ≡ done (serve_all rs s)
  unfolding client_loop serve_all
  client_loop-serve_all [] s h p = refl
  client_loop-serve_all (r ∷ rs) s h p =
      rw (is_xml-wire r h.0, client_loop)
        (ap
            (λ m.
              m >>= λ s'. client_loop lib (map (λ r. received (wire r)) rs ++ end_of_file ∷ []) s')
            (handle_xml-root (filled buffer_size (wire r)) (root_of (tree_of r)) s
                (not_empty (wire r)) p.0
              ∙ answer_root-serve r s h.0)
          ∙ client_loop-serve_all rs (serve r s) h.1 p.1)

  answer_root-last :
      (str name : Text) (s : Session) → answer_root str (name, [], last) s ≡ null_pointer
  unfolding answer_root set_nodes extract_element xml_get
  answer_root-last str name s = refl

  -- A text that starts like XML and is no document, or whose root has no child, ends the daemon: it follows
  -- a null pointer, or one that was never set.
  pub client_loop-null_pointer :
      (message name : Text) (rest : List Incoming) (s : Session)
      → is_xml message ≡ true
      → (lib.parse_memory (filled buffer_size message) ≡ none)
        ⊎ (lib.parse_memory (filled buffer_size message) ≡ some (name, [], last))
      → client_loop lib (received message ∷ rest) s ≡ null_pointer
  unfolding client_loop handle_xml set_nodes xml_get
  client_loop-null_pointer message name rest s x (inl p) =
      let gone : handle_xml lib (filled buffer_size message) s ≡ null_pointer =
        rw (not_empty message, p, parse_mem) refl in
      rw (x, client_loop) (ap (λ m. m >>= λ s'. client_loop lib rest s') gone)
  client_loop-null_pointer message name rest s x (inr p) =
      rw (x, client_loop)
        (ap (λ m. m >>= λ s'. client_loop lib rest s')
          (handle_xml-root (filled buffer_size message) (name, [], last) s (not_empty message) p
            ∙ answer_root-last (filled buffer_size message) name s))

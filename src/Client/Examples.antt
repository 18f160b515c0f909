-- ===== src/Client/Examples.antt =====
-- A console with two lines and an unknown word, whose input then ends.
use powerguru.Prelude.{
  ◌≡◌, refl, List, [], ◌∷◌, ◌++◌, Option, none, some, Text, codes, map, All, arith, if◌then◌else◌,
}
use powerguru.Std.Str.{starts_with, eq_text}
use powerguru.Std.Convert.{done}
use powerguru.Network.Receive.{filled}
use powerguru.Commands.{nop, list}
use powerguru.Xml.{LibNode, text, Root, LibXml}
use powerguru.Daemon.Serve.{greet, ask, tree_of, node_of, root_of, wire, serve_all}
use powerguru.Client.{greeting}
use powerguru.Client.Dialogue.{
  Line, IsLine, command_at, request_of, dialogue, client_handler-console,
}

-- A parser that knows what they send.
parse : Text → Option Root
unfolding starts_with node_of
parse s =
    if starts_with (codes "<command><list> devices</list>") s
    then some (root_of (tree_of (ask list (codes " devices"))))
    else if starts_with (codes "<command><helo><hostname></hostname>") s
    then some (root_of (tree_of (greet [] (codes "rob"))))
    else some (root_of (tree_of (ask nop [])))

text_content : LibNode → Option Text
text_content (text t) = some t
text_content _ = none

abbrev lib : LibXml
unfolding text_content
lib = record {
  parse_memory = parse;
  parse_file = λ name. none;
  node_content = text_content;
  node_content-text = λ t. refl;
}

abbrev lines : List Line
lines =
    record { word = codes "list"; args = some (codes "devices") }
    ∷ record { word = codes "helo"; args = some (codes "rob") }
    ∷ record { word = codes "stop"; args = none }
    ∷ []

abbrev end_of_input : Line
end_of_input = record { word = []; args = none }

lines-IsLine : All IsLine (lines ++ end_of_input ∷ [])
unfolding command_at eq_text
lines-IsLine = (
  record { one_word = ground arith; no_greeting = λ e. cc },
  (
    record { one_word = ground arith; no_greeting = λ e. cc },
    (
      record { one_word = ground arith; no_greeting = λ e f. cc },
      (record { one_word = tt; no_greeting = λ e f. cc }, tt),
    ),
  ),
)

client_handler-console_example :
    dialogue lib (codes "shed") (codes "rob") lines end_of_input
    ≡ done (
        serve_all
          (map request_of (lines ++ end_of_input ∷ []))
          (record { hostname = []; sent = greeting (codes "shed") (codes "rob") ∷ [] }))
unfolding parse lib filled wire request_of command_at eq_text
client_handler-console_example =
    client_handler-console lib (codes "shed") (codes "rob") lines end_of_input lines-IsLine
      (refl, (refl, (refl, (refl, tt))))

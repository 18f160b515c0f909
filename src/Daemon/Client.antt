-- ===== src/Daemon/Client.antt =====
-- daemon/threads.cc: `client_handler`, the thread that answers a client.
use powerguru.Prelude.{ℕ, List, [], ◌∷◌, ◌++◌, Option, none, some, Text, codes, if◌then◌else◌}
use powerguru.Std.Str.{eq_text}
use powerguru.Std.Convert.{Result, done, null_pointer, ◌>>=◌}
use powerguru.Network.Receive.{filled, is_xml}
use powerguru.Commands.{helo, create_command, exec_command}
use powerguru.Xml.{LibXml, Node, name_get, value_get, children_of, child_get, parse_mem, xml_get}

-- The variables of the thread, and what it wrote to the socket.
pub record Session : Type 0 where
  pub hostname : Text
  pub sent : List Text

-- What a call of `read_some` gives: at most 4096 bytes, the end of the connection, or another error,
-- after which the bytes are those of `memset`.
pub data Incoming : Type 0 where
  received : Text → Incoming
  end_of_file broken : Incoming

-- The size of `bytes`.
abbrev pub buffer_size : ℕ
buffer_size = 4096

-- The branches on the first element of the document. `childGet (0)` does not test its index.
unfoldable pub answer : Text → Node → Session → Result Session
unfolding eq_text child_get exec_command
answer str n s =
    let greeted : Result Session = elim (child_get (children_of n) 0) [
      | none ↦ null_pointer
      | some host ↦ done (record s { hostname = value_get host })
    ] in
    if eq_text (name_get n) (codes "helo")
    then greeted
    else done (record s { sent = s.sent ++ exec_command str ∷ [] })

module _ (lib : LibXml) where
  -- A text that starts with `<`: the result of `parseMem` is dropped, and `_nodes` is not set before it.
  unfoldable pub handle_xml : Text → Session → Result Session
  unfolding parse_mem xml_get answer
  handle_xml str s = parse_mem lib str none >>= λ p.
      xml_get p.0 0 >>= λ n. elim n [ none ↦ null_pointer | some n ↦ answer str n s ]

  -- `while (loop)`, over what the calls of `read_some` give.
  unfoldable pub client_loop : List Incoming → Session → Result Session
  unfolding handle_xml is_xml filled
  client_loop [] s = done s
  client_loop (end_of_file ∷ rest) s = done s
  client_loop (broken ∷ rest) s = client_loop rest s
  client_loop (received bytes ∷ rest) s =
      (if is_xml bytes then handle_xml (filled buffer_size bytes) s else done s) >>= λ s'.
      client_loop rest s'

  -- `client_handler`: the first message of the client is not looked at. Without a variable `USER` a null
  -- pointer is appended.
  unfoldable pub client_handler : Text → Option Text → Incoming → List Incoming → Result Session
  unfolding client_loop create_command
  client_handler host_name user first rest = elim user [
    | none ↦ null_pointer
    | some user ↦
        client_loop rest
          (record { hostname = []; sent = create_command helo (host_name ++ (32 ∷ user)) [] ∷ [] })
  ]

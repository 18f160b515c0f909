-- ===== src/Network/Examples.antt =====
-- A daemon that two messages reach.
use powerguru.Prelude.{
  ℕ, ◌≡◌, ◌↔◌, ◌⊎◌, refl, true, false, List, [], ◌∷◌, ◌++◌, none, Text, codes, map, arith,
}
use powerguru.Prelude.Int.{pos}
use powerguru.Std.Run.{done}
use powerguru.Outback.Device.{success}
use powerguru.Network.Device.{Tcpip, ready, is_negative, ClientAnswers, create_net_client}
use powerguru.Network.Receive.{cut, is_xml, bytes, Arrival, anydata}
use powerguru.Network.Packets.{joined, IsMessage}
use powerguru.Network.Messages.{Message, plain, ended, text_of, now, anydata-joined, anydata-parts}
use powerguru.Network.Client.{create_net_client-success}

abbrev open_socket : Tcpip
open_socket = record { sockfd = pos 5; sock_io = pos 4; connections = []; hostname = codes "shed" }

abbrev status : Text
status = codes "<status>opmode</status>\n"

abbrev meters : Text
meters = codes "<meters>hertz</meters>\n"

-- Every call of `read` brings the same bytes.
abbrev always : Text → ℕ → Arrival
always s i = record { select = ready; read = bytes s }

status-IsMessage : IsMessage 80 status
unfolding is_xml
status-IsMessage = record { starts = refl; no_nul = ground arith; fits = omega arith }

meters-IsMessage : IsMessage 80 meters
unfolding is_xml
meters-IsMessage = record { starts = refl; no_nul = ground arith; fits = omega arith }

-- A message with a line end, one of two lines, and one without a line end.
abbrev two_lines : Message
two_lines = ended (codes "<meters>hertz\n</meters>") (codes " ")

abbrev messages : List Message
messages = ended (codes "<status>opmode</status>") [] ∷ two_lines ∷ plain (codes "<nop/>") ∷ []

anydata-joined_example :
    anydata 80 (always (joined (map text_of messages) [])) open_socket none []
    ≡ done (record {
      code = success;
      msgs =
          codes "<status>opmode</status>" ∷ codes "<meters>hertz\n</meters>" ∷ codes "<nop/>" ∷ [];
      leftover = none;
    })
unfolding joined is_xml
anydata-joined_example =
    anydata-joined 80 (always (joined (map text_of messages) [])) open_socket
      (ended (codes "<status>opmode</status>") []) (two_lines ∷ plain (codes "<nop/>") ∷ []) refl
      (tt, (ground arith, (ground arith, tt)))
      (
        record { starts = refl; no_nul = ground arith; fits = omega arith },
        (
          record { starts = refl; no_nul = ground arith; fits = omega arith },
          (record { starts = refl; no_nul = ground arith; fits = omega arith }, tt),
        ),
      )
      (omega arith) (now refl refl)

anydata-parts_example :
    (anydata 80 (always status) open_socket none []
      ≡ done (record { code = success; msgs = cut status ∷ []; leftover = none }))
    × (anydata 80 (always (meters ++ 0 ∷ [])) open_socket none []
        ≡ done (record { code = success; msgs = cut meters ∷ []; leftover = none }))
anydata-parts_example =
    anydata-parts 80 (always status) (always (meters ++ 0 ∷ [])) open_socket status meters refl
      status-IsMessage (omega arith) (ground arith) (omega arith) (omega arith) (now refl refl)
      (now refl refl)

-- The first `connect` fails and the second works.
abbrev second_connect : ClientAnswers
second_connect = record {
  address = true;
  socket = pos 5;
  connect = false;
  select = ready;
  reconnect = true;
}

create_net_client-success_example :
    ((create_net_client second_connect (codes "shed") open_socket).1 ≡ success) ↔ (
      (second_connect.address ≡ false)
      ⊎ ((is_negative second_connect.socket ≡ false) × (second_connect.connect ≡ true)))
create_net_client-success_example =
    create_net_client-success second_connect (codes "shed") open_socket

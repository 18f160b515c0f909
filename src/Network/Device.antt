-- ===== src/Network/Device.antt =====
-- lib/tcpip.cc: the object, and how it is connected and closed. What the kernel and the resolver answer
-- is an argument.
use powerguru.Prelude.{
  ℕ, zero, suc, ◌+◌, Bool, true, false, List, [], ◌∷◌, ◌++◌, Text, if◌then◌else◌, ltb,
}
use powerguru.Prelude.Int.{ℤ, pos, negsuc}
use powerguru.Outback.Device.{RetCode, success, error}

-- `class Tcpip`; `_client` and `_console` are never read.
pub record Tcpip : Type 0 where
  pub sockfd : ℤ
  pub sock_io : ℤ
  pub connections : List ℤ
  pub hostname : Text

abbrev pub is_negative : ℤ → Bool
is_negative (pos n) = false
is_negative (negsuc n) = true

-- Above 0, and above 2, which are the standard files.
abbrev pub is_positive : ℤ → Bool
is_positive (pos n) = ltb 0 n
is_positive (negsuc n) = false

abbrev pub is_socket : ℤ → Bool
is_socket (pos n) = ltb 2 n
is_socket (negsuc n) = false

-- The answer of `select`: a system call came between, or it failed, or the time is over, or the
-- descriptor is ready.
pub data Selected : Type 0 where
  interrupted failed timed_out ready : Selected

-- `createNetServer (port)`: whether there is an address, what `socket` returns, whether `bind` works,
-- or else whether the address is in use, and whether `listen` works.
pub data Bound : Type 0 where
  bound in_use not_bound : Bound

pub record ServerAnswers : Type 0 where
  pub address : Bool
  pub socket : ℤ
  pub bind : Bound
  pub listen : Bool

unfoldable pub create_net_server : ServerAnswers → Tcpip → Tcpip × RetCode
create_net_server a o =
    let o' = record o { sock_io = a.socket } in
    let listening = if a.listen then (o', success) else (o', error) in
    if a.address
    then if is_negative a.socket
      then (o', error)
      else elim a.bind [ in_use ↦ (o', error) | bound ↦ listening | not_bound ↦ listening ]
    else (o, error)

-- `newNetConnection`: what `accept` returns.
unfoldable pub new_net_connection : ℤ → Tcpip → Tcpip × RetCode
new_net_connection accepted o =
    let o' = record o { sockfd = accepted } in
    if is_socket o.sock_io
    then if is_negative accepted
      then (o', error)
      else (record o' { connections = o.connections ++ accepted ∷ [] }, success)
    else (o, error)

-- `createNetClient (hostname, port)`: whether there is an address, what `socket` returns, whether the two
-- calls of `connect` work, and the answer of the `select` between them.
pub record ClientAnswers : Type 0 where
  pub address : Bool
  pub socket : ℤ
  pub connect : Bool
  pub select : Selected
  pub reconnect : Bool

-- What the code makes of the second `connect`, which returns 0 where it works and -1 where it does not:
-- `if (ret <= 0)`.
unfoldable pub reconnected : Bool → Tcpip → Tcpip × RetCode
reconnected works o =
    let ret = if works then pos 0 else negsuc 0 in
    if is_positive ret then (o, success) else (o, error)

unfoldable pub create_net_client : ClientAnswers → Text → Tcpip → Tcpip × RetCode
unfolding reconnected
create_net_client a hostname o =
    let o' = record o { sockfd = a.socket } in
    let connected : Tcpip × RetCode =
      (record o' { hostname = hostname; sock_io = a.socket }, success) in
    let again : Tcpip × RetCode = elim a.select [
      | failed ↦ (o', error)
      | interrupted ↦ (o', error)
      | timed_out ↦ reconnected a.reconnect o'
      | ready ↦ reconnected a.reconnect o'
    ] in
    if a.address
    then if is_negative a.socket then (o', error) else if a.connect then connected else again
    else (record o { hostname = hostname; sock_io = o.sockfd }, success)

-- `closeConnection`.
unfoldable pub close_connection : Tcpip → Tcpip × RetCode
close_connection o =
    if is_positive o.sockfd then (record o { sockfd = pos 0 }, success) else (o, error)

-- `closeNet`: up to three calls of `close`; the descriptor stays in the object.
unfoldable pub close_loop : ℕ → ℕ → (ℕ → Bool) → RetCode
close_loop zero i closes = error
close_loop (suc retries) i closes =
    let rest = close_loop retries (i + 1) closes in if closes i then success else rest

unfoldable pub close_net : (ℕ → Bool) → Tcpip → RetCode
unfolding close_loop
close_net closes o = if is_positive o.sockfd then close_loop 3 0 closes else success

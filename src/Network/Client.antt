-- ===== src/Network/Client.antt =====
-- What `createNetClient` reports.
use powerguru.Prelude.{
  ◌≡◌, ◌↔◌, ◌⊎◌, refl, Bool, true, false, ◌&&◌, not, Text, arith, if◌then◌else◌,
}
use powerguru.Outback.Device.{RetCode, success, error}
use powerguru.Network.Device.{Tcpip, is_negative, ClientAnswers, reconnected, create_net_client}

reconnected-error : (works : Bool) (o : Tcpip) → reconnected works o ≡ (o, error)
unfolding reconnected
reconnected-error true o = refl
reconnected-error false o = refl

-- The cases of the answers.
code_of : Bool → Bool → Bool → RetCode
code_of false negative connect = success
code_of true negative connect = if not negative && connect then success else error

create_net_client-code :
    (a : ClientAnswers) (hostname : Text) (o : Tcpip)
    → (create_net_client a hostname o).1 ≡ code_of a.address (is_negative a.socket) a.connect
unfolding create_net_client reconnected code_of
create_net_client-code a hostname o = ground arith

-- `createNetClient` reports a success exactly when the resolver has no address, or there is a socket and
-- the first call of `connect` works: a connection that the second call makes is an error.
pub create_net_client-success :
    (a : ClientAnswers) (hostname : Text) (o : Tcpip)
    → ((create_net_client a hostname o).1 ≡ success)
      ↔ ((a.address ≡ false) ⊎ ((is_negative a.socket ≡ false) × (a.connect ≡ true)))
unfolding code_of
create_net_client-success a hostname o = ground (arith, create_net_client-code a hostname o)

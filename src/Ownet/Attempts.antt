-- ===== src/Ownet/Attempts.antt =====
-- The attempts to connect of `Ownet::Ownet`.
use powerguru.Prelude.{inl, inr, Bool-cases, ◌≡◌, refl, Bool, true, false, Text}
use powerguru.Std.Convert.{Result, done}
use powerguru.Ownet.{OwServer, Ownet, unconnected, with_port, connect, set_up, new}

-- What the constructor makes of the three attempts.
abbrev pub outcome_of : OwServer → Bool → Bool → Bool → Result Ownet
outcome_of server true second third = set_up server (record unconnected { owserver = true })
outcome_of server false true third = set_up server (record unconnected { owserver = true })
outcome_of server false false true = done (record unconnected { owserver = true })
outcome_of server false false false = done unconnected

pub new-attempts :
    (server : OwServer) (host : Text)
    → new server host
      ≡ outcome_of server
          (server.init (with_port host) 0)
          (server.init (with_port host) 1)
          (server.init (with_port host) 2)
unfolding new connect
new-attempts server host = elim (Bool-cases (server.init (with_port host) 0)) [
  | inl first ↦ rw (first) refl
  | inr no_first ↦ elim (Bool-cases (server.init (with_port host) 1)) [
    | inl second ↦ rw (no_first, second) refl
    | inr no_second ↦ elim (Bool-cases (server.init (with_port host) 2)) [
      | inl third ↦ rw (no_first, no_second, third) refl
      | inr no_third ↦ rw (no_first, no_second, no_third) refl
    ]
  ]
]

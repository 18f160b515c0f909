-- ===== src/Msgs/Examples.antt =====
-- Messages between a daemon and a client.
use powerguru.Prelude.{ℕ, ◌≡◌, refl, true, [], ◌∷◌, codes}
use powerguru.Prelude.Int.{pos}
use powerguru.Std.Run.{done, undefined}
use powerguru.Std.Number.{print_int}
use powerguru.Msgs.State.{
  Msgs, daemon, client, opmode, battery_volts, charge_amps, status, buy, grid, cache_get,
}
use powerguru.Msgs.Create.{
  ends, helo_create, status_create, meters_request, request_meters, meters_response_create,
  response_create, msg_tag, config_create, meter_tag, request_status, request_config,
  request_command, status_tag, config_tag, command_tag,
}
use powerguru.Msgs.Net.{Answer, ready, write_net, Outcome, write_net-Outcome}
use powerguru.Msgs.Process.{process}
use powerguru.Msgs.Trees.{print_tree, framed, leaf, branch, nil, grow, create_trees}
use powerguru.Msgs.Dialogue.{node_of, status_reply, process-status_reply, process-meters_reply}
use powerguru.Msgs.Reports.{with_sent, process-status_request}

abbrev the_client : Msgs
the_client = record {
  version = codes "1.0";
  net_mode = client;
  cache = (codes "opmode", codes "unknown") ∷ [];
  thisip = codes "10.0.0.2";
  thishost = codes "garden";
  remoteip = codes "10.0.0.1";
  remotehost = codes "shed";
  sent = [];
}

abbrev the_daemon : Msgs
the_daemon = record the_client { net_mode = daemon; cache = [] }

-- The kernel takes `n` bytes in each round.
abbrev takes : ℕ → ℕ → ℕ → Answer
takes n message i = record { select = ready; write = pos n }

create_trees_example :
    (helo_create the_client
      ≡ print_tree
          (branch (codes "powerguru") ((codes "version", codes "1.0") ∷ []) (
            grow (leaf (codes "client") ((codes "ip", codes "10.0.0.1") ∷ []) (codes "shed")) (
              grow
                (leaf (codes "server") ((codes "ip", codes "10.0.0.2") ∷ []) (codes "garden"))
                nil)))
          ends)
    × (status_create the_client
        ≡ print_tree (framed (codes "1.0") (leaf (codes "status") [] [])) ends)
    × (meters_request the_client battery_volts
        ≡ print_tree
            (framed (codes "1.0") (leaf (codes "meters") [] (meter_tag battery_volts)))
            ends)
    × (request_meters the_client battery_volts
        ≡ print_tree
            (framed (codes "1.0") (leaf (codes "meters") [] (meter_tag battery_volts)))
            ends)
    × (meters_response_create the_client (codes "hertz") (codes "60")
        ≡ print_tree
            (framed
              (codes "1.0")
              (branch (codes "meters") [] (grow (leaf (codes "hertz") [] (codes "60")) nil)))
            ends)
    × (response_create the_client status (codes "opmode") (codes "60")
        ≡ print_tree
            (framed
              (codes "1.0")
              (branch (msg_tag status) [] (grow (leaf (codes "opmode") [] (codes "60")) nil)))
            ends)
    × (config_create (codes "opmode") (pos 5)
        ≡ print_tree
            (branch
              (codes "powerguru")
              []
              (grow (leaf (codes "opmode") [] (print_int (pos 5))) nil))
            ends)
    × (request_status the_client opmode
        ≡ print_tree (framed (codes "1.0") (leaf (codes "status") [] (status_tag opmode))) ends)
    × (request_config the_client buy
        ≡ print_tree (framed (codes "1.0") (leaf (codes "config") [] (config_tag buy))) ends)
    × (request_command the_client grid
        ≡ print_tree (framed (codes "1.0") (leaf (codes "status") [] (command_tag grid))) ends)
create_trees_example =
    create_trees the_client (codes "hertz") (codes "opmode") (codes "60") (pos 5) battery_volts
      status opmode buy grid

process-status_reply_example :
    (m' : Msgs) × (process true (takes 0) (node_of (status_reply (codes "1.0") opmode)) the_client
      ≡ done m')
    × (cache_get (status_tag opmode) m' ≡ codes "none")
    × (m'.sent ≡ [])
process-status_reply_example =
    process-status_reply true (takes 0) (codes "1.0") opmode the_client refl (λ e. cc)

process-status_request_example :
    process true
      (takes 76)
      (node_of (framed (codes "2.0") (leaf (codes "status") [] (status_tag opmode))))
      the_daemon
    ≡ done (with_sent (print_tree (status_reply (codes "1.0") opmode) ends) the_daemon)
unfolding print_tree status_tag
process-status_request_example =
    process-status_request (takes 76) (codes "2.0") opmode the_daemon refl (refl, refl)

process-meters_reply_example :
    process true
      (takes 0)
      (node_of (
        framed
          (codes "1.0")
          (branch (codes "meters") [] (grow (leaf (meter_tag charge_amps) [] (codes "7")) nil))))
      the_client
    ≡ undefined
process-meters_reply_example =
    process-meters_reply true (takes 0) (codes "1.0") (codes "7") charge_amps the_client refl

write_net-Outcome_example : Outcome 10 (takes 4 0) (write_net true 10 (takes 4 0))
write_net-Outcome_example = write_net-Outcome true 10 (takes 4 0)

-- ===== src/Msgs/Reports.antt =====
-- What the functions of the daemon report of the replies that they write.
use powerguru.Prelude.{
  ℕ, ◌≡◌, ◌≢◌, refl, sym, ◌∙◌, ap, true, [], ◌∷◌, ◌++◌, none, some, Text, codes, length, arith,
}
use powerguru.Prelude.Int.{pos}
use powerguru.Std.Run.{done, undefined, ◌>>=◌, bind-done}
use powerguru.Msgs.State.{
  nonet, daemon, client, not_supported, XmlNode, node, no_child, Msgs, XmlStatus, value_get,
  cache_get,
}
use powerguru.Msgs.Create.{ends, status_tag, meters_response_create}
use powerguru.Msgs.Trees.{leaf, print_tree, framed}
use powerguru.Msgs.Dialogue.{node_of, status_reply, status_answer-status_tag}
use powerguru.Msgs.Net.{Answer, ready, write_net-at_once}
use powerguru.Msgs.Process.{
  status_answer, send, call, is_zero, client_value, status_node, meters_node, process,
  process_children, run_method,
}
use powerguru.Msgs.Methods.{method_get, status_process, meters_process}

-- The message that is written behind the others.
abbrev pub with_sent : Text → Msgs → Msgs
with_sent str m = record m { sent = m.sent ++ str ∷ [] }

-- The kernel takes a whole message at once.
abbrev pub TakesAll : Text → (ℕ → Answer) → Type 0
TakesAll str answers = ((answers 0).select ≡ ready) × ((answers 0).write ≡ pos (length str))

meters_response-ne-nil : (m : Msgs) (type val : Text) → meters_response_create m type val ≢ []
unfolding meters_response_create
meters_response-ne-nil m type val e = cc

module _ (kernel : ℕ → ℕ → Answer) where
  send-not_supported :
      (str : Text) (m : Msgs)
      → str ≢ []
      → TakesAll str (kernel (length m.sent))
      → send true kernel str m ≡ done (with_sent str m, not_supported)
  unfolding send is_zero
  send-not_supported [] m n h = absurd (n refl)
  send-not_supported (c ∷ str) m n h =
      bind-done _ _ (write_net-at_once (length (c ∷ str)) (kernel (length m.sent)) h.0 h.1)
        (ground arith)

  -- The reply of the daemon to a request for the status is written and then reported as not supported,
  -- where the kernel takes it at once.
  pub call-status_process :
      (xml : XmlNode) (value : Text) (m : Msgs)
      → m.net_mode ≡ daemon
      → value_get xml ≡ some value
      → status_answer m value ≢ []
      → TakesAll (status_answer m value) (kernel (length m.sent))
      → call true kernel status_process xml m
        ≡ done (with_sent (status_answer m value) m, not_supported)
  unfolding call status_node meters_node
  call-status_process xml value m e v n h =
      ap
        (λ mode. elim mode [
          | daemon ↦ elim (value_get xml) [
            | none ↦ undefined
            | some value ↦ send true kernel (status_answer m value) m
          ]
          | client ↦ client_value (codes "status") xml m
          | nonet ↦ done (m, not_supported)
        ])
        e
      ∙ ap
          (λ o. elim o [
            | none ↦ undefined
            | some value ↦ send true kernel (status_answer m value) m
          ])
          v
      ∙ send-not_supported (status_answer m value) m n h

  -- So is its reply to a request for a meter, which holds the value of the cache.
  pub call-meters_process :
      (xml : XmlNode) (value : Text) (m : Msgs)
      → m.net_mode ≡ daemon
      → value_get xml ≡ some value
      → TakesAll (meters_response_create m value (cache_get value m)) (kernel (length m.sent))
      → call true kernel meters_process xml m
        ≡ done (with_sent (meters_response_create m value (cache_get value m)) m, not_supported)
  unfolding call status_node meters_node
  call-meters_process xml value m e v h =
      ap
        (λ mode. elim mode [
          | daemon ↦ elim (value_get xml) [
            | none ↦ undefined
            | some value ↦ send true kernel (meters_response_create m value (cache_get value m)) m
          ]
          | client ↦ done (m, not_supported)
          | nonet ↦ done (m, not_supported)
        ])
        e
      ∙ ap
          (λ o. elim o [
            | none ↦ undefined
            | some value ↦ send true kernel (meters_response_create m value (cache_get value m)) m
          ])
          v
      ∙ send-not_supported (meters_response_create m value (cache_get value m)) m
          (meters_response-ne-nil m value (cache_get value m)) h

reply-ne-nil : (version : Text) (s : XmlStatus) → print_tree (status_reply version s) ends ≢ []
unfolding print_tree
reply-ne-nil version s e = cc

-- The call that `process` makes for the request in its frame.
process_request :
    (kernel : ℕ → ℕ → Answer) (version value : Text) (m : Msgs)
    → process true kernel (node_of (framed version (leaf (codes "status") [] value))) m ≡ (
        ((call true kernel status_process (node (codes "status") (some value) [] no_child) m
            >>= λ r. done r.0)
          >>= λ m'. process_children true kernel no_child m')
        >>= λ m'. process_children true kernel no_child m')
unfolding process run_method method_get node_of
process_request kernel version value m = refl

-- The daemon that processes the request of a client for the status writes one message, the print of
-- the reply, where the kernel takes it at once, and is otherwise as it was.
pub process-status_request :
    (kernel : ℕ → ℕ → Answer) (version : Text) (s : XmlStatus) (m : Msgs)
    → m.net_mode ≡ daemon
    → TakesAll (print_tree (status_reply m.version s) ends) (kernel (length m.sent))
    → process true kernel (node_of (framed version (leaf (codes "status") [] (status_tag s)))) m
      ≡ done (with_sent (print_tree (status_reply m.version s) ends) m)
unfolding process
process-status_request kernel version s m e h =
    let answer = status_answer-status_tag m s in
    process_request kernel version (status_tag s) m
    ∙ ap
        (λ r.
          (((r >>= λ r. done r.0) >>= λ m'. process_children true kernel no_child m') >>= λ m'.
          process_children true kernel no_child m'))
        (call-status_process kernel (node (codes "status") (some (status_tag s)) [] no_child)
          (status_tag s) m e refl (λ n. reply-ne-nil m.version s (sym answer ∙ n))
          (h.0, h.1 ∙ ap (λ t. pos (length t)) (sym answer)))
    ∙ ap (λ t. done (with_sent t m)) answer

-- ===== src/Msgs/Dialogue.antt =====
-- A request of a client, the answer of the daemon and what the client makes of it.
use powerguru.Prelude.{
  ℕ, ◌≡◌, ◌≢◌, refl, sym, ◌∙◌, ap, Bool, true, false, List, [], ◌∷◌, none, some, Text, codes,
  if◌then◌else◌, inl, inr, Bool-cases,
}
use powerguru.Std.Run.{Run, done, undefined}
use powerguru.Std.Str.{eq_text, eq_text_refl}
use powerguru.Msgs.State.{
  client, XmlNode, node, Children, no_child, child, Msgs, cache_get, cache_add, lookup, put,
  XmlStatus, sysversion, revision, opmode, errormode, warningmode, XmlMeters, charge_amps,
  ac_load_amps, battery_volts, ac_volts_out, ac1_volts_in, ac2_volts_in, pv_amps_in, pv_volts_in,
  buy_amps, sell_amps, daily_kwh, hertz, tempcomp_volts,
}
use powerguru.Msgs.Create.{ends, status_tag, meter_tag}
use powerguru.Msgs.Trees.{Tree, leaf, branch, Forest, nil, grow, print_tree, framed}
use powerguru.Msgs.Net.{Answer}
use powerguru.Msgs.Process.{status_answer, process}

-- The node of a tree.
unfoldable mutual
  pub node_of : Tree → XmlNode
  node_of (leaf name attributes text) = node name (some text) attributes no_child
  node_of (branch name attributes forest) = node name none attributes (children_of forest)

  pub children_of : Forest → Children
  children_of nil = no_child
  children_of (grow tree forest) = child (node_of tree) (children_of forest)

-- The answer to a request for the status, and the tree of the reply.
abbrev pub answer_of : XmlStatus → Text → Text
answer_of sysversion version = version
answer_of revision version = codes "0.0"
answer_of opmode version = codes "none"
answer_of errormode version = codes "none"
answer_of warningmode version = codes "none"

abbrev pub status_reply : Text → XmlStatus → Tree
status_reply version s =
    framed version
      (branch (codes "status") [] (grow (leaf (status_tag s) [] (answer_of s version)) nil))

-- The daemon answers each request for the status by the print of the reply.
pub status_answer-status_tag :
    (m : Msgs) (s : XmlStatus)
    → status_answer m (status_tag s) ≡ print_tree (status_reply m.version s) ends
unfolding status_answer status_tag print_tree
status_answer-status_tag m sysversion = refl
status_answer-status_tag m revision = refl
status_answer-status_tag m opmode = refl
status_answer-status_tag m errormode = refl
status_answer-status_tag m warningmode = refl

lookup-put : (cache : List (Text × Text)) (name str : Text) → lookup (put cache name str) name ≡ str
unfolding lookup put
lookup-put [] name str = rw (eq_text_refl name) refl
lookup-put ((tag, old) ∷ cache) name str = elim (Bool-cases (eq_text tag name)) [
  | inl e ↦ rw e (rw e refl)
  | inr e ↦ rw e (rw e (lookup-put cache name str))
]

-- A client that holds the same data.
abbrev as_client : Msgs → Msgs
as_client m = record m { net_mode = client }

as_client_lem : (m : Msgs) → m.net_mode ≡ client → as_client m ≡ m
as_client_lem m e = λ i. record m { net_mode = sym e i }

module _ (has_socket : Bool) (kernel : ℕ → ℕ → Answer) where
  -- What the client makes of the reply.
  after_reply : Text → XmlStatus → Msgs → Run Msgs
  after_reply version sysversion m = undefined
  after_reply version s m = done (cache_add (status_tag s) (answer_of s version) m)

  process_reply :
      (version : Text) (s : XmlStatus) (m : Msgs)
      → process has_socket kernel (node_of (status_reply version s)) (as_client m)
        ≡ after_reply version s (as_client m)
  unfolding process node_of status_tag after_reply
  process_reply version sysversion m = refl
  process_reply version revision m = refl
  process_reply version opmode m = refl
  process_reply version errormode m = refl
  process_reply version warningmode m = refl

  -- A client that processes the reply to a request for the status holds the answer in its cache, and
  -- writes nothing, unless it asked for the version of the system.
  pub process-status_reply :
      (version : Text) (s : XmlStatus) (m : Msgs)
      → m.net_mode ≡ client
      → s ≢ sysversion
      → (m' : Msgs) × (process has_socket kernel (node_of (status_reply version s)) m ≡ done m')
        × (cache_get (status_tag s) m' ≡ answer_of s version)
        × (m'.sent ≡ m.sent)
  unfolding cache_get cache_add after_reply
  process-status_reply version s m e n = (
    cache_add (status_tag s) (answer_of s version) (as_client m),
    ap (process has_socket kernel (node_of (status_reply version s))) (sym (as_client_lem m e))
        ∙ process_reply version s m
        ∙ no_version s n,
    lookup-put m.cache (status_tag s) (answer_of s version),
    refl,
  )
    where
      no_version :
          (s : XmlStatus)
          → s ≢ sysversion
          → after_reply version s (as_client m)
            ≡ done (cache_add (status_tag s) (answer_of s version) (as_client m))
      no_version sysversion n = absurd (n refl)
      no_version revision n = refl
      no_version opmode n = refl
      no_version errormode n = refl
      no_version warningmode n = refl

  -- For the tag of the system's version, which the daemon answers, the client has no function: what
  -- `methodGet` returns is undefined.
  pub process-sysversion :
      (version : Text) (m : Msgs)
      → m.net_mode ≡ client
      → process has_socket kernel (node_of (status_reply version sysversion)) m ≡ undefined
  unfolding after_reply
  process-sysversion version m e =
      ap (process has_socket kernel (node_of (status_reply version sysversion)))
        (sym (as_client_lem m e))
      ∙ process_reply version sysversion m

-- The meters whose tag is in the table of functions.
abbrev pub has_reader : XmlMeters → Bool
has_reader charge_amps = false
has_reader pv_amps_in = false
has_reader pv_volts_in = false
has_reader tempcomp_volts = false
has_reader _ = true

module _ (has_socket : Bool) (kernel : ℕ → ℕ → Answer) where
  meters_reply_lem :
      (version val : Text) (t : XmlMeters) (m : Msgs)
      → process has_socket kernel
          (node_of
            (framed version (branch (codes "meters") [] (grow (leaf (meter_tag t) [] val) nil))))
          (as_client m)
        ≡ (if has_reader t then done (as_client m) else undefined)
  unfolding process node_of meter_tag
  meters_reply_lem version val charge_amps m = refl
  meters_reply_lem version val ac_load_amps m = refl
  meters_reply_lem version val battery_volts m = refl
  meters_reply_lem version val ac_volts_out m = refl
  meters_reply_lem version val ac1_volts_in m = refl
  meters_reply_lem version val ac2_volts_in m = refl
  meters_reply_lem version val pv_amps_in m = refl
  meters_reply_lem version val pv_volts_in m = refl
  meters_reply_lem version val buy_amps m = refl
  meters_reply_lem version val sell_amps m = refl
  meters_reply_lem version val daily_kwh m = refl
  meters_reply_lem version val hertz m = refl
  meters_reply_lem version val tempcomp_volts m = refl

  -- The reply to a request for a meter leaves the client as it was, for nine of the meters; for the
  -- other four, whose tags are spelled otherwise in the table or are not there, it is undefined what
  -- the client does.
  pub process-meters_reply :
      (version val : Text) (t : XmlMeters) (m : Msgs)
      → m.net_mode ≡ client
      → process has_socket kernel
          (node_of
            (framed version (branch (codes "meters") [] (grow (leaf (meter_tag t) [] val) nil))))
          m
        ≡ (if has_reader t then done m else undefined)
  process-meters_reply version val t m e =
      ap (process has_socket kernel (node_of (meter_tree version val t))) (sym (as_client_lem m e))
      ∙ meters_reply_lem version val t m
      ∙ ap (λ m'. if has_reader t then done m' else undefined) (as_client_lem m e)
    where
      meter_tree : Text → Text → XmlMeters → Tree
      meter_tree version val t =
          framed version (branch (codes "meters") [] (grow (leaf (meter_tag t) [] val) nil))

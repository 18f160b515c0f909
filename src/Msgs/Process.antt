-- ===== src/Msgs/Process.antt =====
-- The functions of `class Msgs` that handle the nodes of a message, `process`. What
-- the kernel answers to the writes of a message is an argument, by the number of the message.
use powerguru.Prelude.{
  ℕ, ◌==◌, Bool, false, not, [], ◌∷◌, ◌++◌, Option, none, some, Text, codes, length, if◌then◌else◌,
}
use powerguru.Prelude.Int.{ℤ, pos, negsuc}
use powerguru.Std.Str.{eq_text}
use powerguru.Std.Run.{Run, done, undefined, ◌>>=◌}
use powerguru.Msgs.State.{
  nonet, daemon, client, ErrorCode, success, not_supported, XmlNode, node, Children, no_child,
  child, name_get, value_get, attributes_of, Msgs, cache_add, cache_get, status, command, response,
}
use powerguru.Msgs.Create.{body, ends, response_create, meters_response_create}
use powerguru.Msgs.Methods.{
  Method, powerguru_process, helo_process, client_process, server_process, meters_process,
  charge_amps_process, load_amps_process, pv_amps_process, pv_volts_process, daily_kwh_process,
  hertz_process, battery_volts_process, buy_amps_process, sell_amps_process, ac_volts_out_process,
  ac1_in_process, ac2_in_process, status_process, config_process, command_process, method_get,
}
use powerguru.Msgs.Net.{Answer, write_net}

unfoldable pub is_zero : ℤ → Bool
is_zero (pos n) = n == 0
is_zero (negsuc n) = false

-- `strcmp (s, t) != 0`, where `s` may be missing.
differs : Option Text → Text → Run Bool
unfolding eq_text
differs none t = undefined
differs (some s) t = done (not (eq_text s t))

-- The branch on the first attribute and then on the value of `serverProcess` and `clientProcess`.
unfoldable pub check_host : Text → Text → XmlNode → Run ErrorCode
unfolding differs eq_text
check_host ip host xml =
    let by_value =
      differs (value_get xml) host >>= λ d. done (if d then not_supported else success) in
    elim (attributes_of xml) [
      | [] ↦ by_value
      | (name, value) ∷ attributes ↦ if eq_text value ip then by_value else done not_supported
    ]

-- `clientProcess` skips a test for which nothing is known.
unfoldable pub check_client : Msgs → XmlNode → Run ErrorCode
unfolding differs eq_text
check_client m xml =
    let by_value =
      if length m.remotehost == 0
      then done success
      else differs (value_get xml) m.remotehost >>= λ d.
          done (if d then not_supported else success) in
    elim (attributes_of xml) [
      | [] ↦ by_value
      | (name, value) ∷ attributes ↦
          if length m.remoteip == 0
          then by_value
          else if eq_text value m.remoteip
          then by_value
          else done not_supported
    ]

-- The text that `statusProcess` of the daemon answers; an unknown value is answered by an empty one.
unfoldable pub status_answer : Msgs → Text → Text
unfolding eq_text response_create
status_answer m value =
    if eq_text value (codes "sysversion")
    then response_create m status value m.version
    else if eq_text value (codes "revision")
    then response_create m status value (codes "0.0")
    else if eq_text value (codes "opmode")
    then response_create m status value (codes "none")
    else if eq_text value (codes "warningmode")
    then response_create m status value (codes "none")
    else if eq_text value (codes "errormode")
    then response_create m status value (codes "none")
    else []

-- The text that `commandProcess` of the daemon answers, with its end of line.
unfoldable pub command_answer : Msgs → Text → Text
unfolding eq_text response_create
command_answer m value =
    (if eq_text value (codes "auxilary")
      then response_create m command value (codes "0.0")
      else if eq_text value (codes "relay")
      then response_create m command value (codes "none")
      else if eq_text value (codes "poll")
      then response_create m command value (codes "inverter")
      else if eq_text value []
      then response_create m command value (codes "charger")
      else response_create m response value (codes "foobar"))
    ++ codes "\r\n"

-- The text of `unimplementedProcess`.
unfoldable pub unimplemented_answer : Msgs → Text → Text
unimplemented_answer m name = body (
    codes "<powerguru version=\""
    ∷ m.version
    ∷ codes "\">"
    ∷ codes "<status><warningmode><"
    ∷ name
    ∷ codes ">unimplemented</"
    ∷ name
    ∷ codes "></warningmode>"
    ∷ codes "</status>"
    ∷ codes "</powerguru>"
    ∷ ends
    ∷ [])

-- A node of the client: the value goes to the cache, unless it is the frame `frame`.
unfoldable pub client_value : Text → XmlNode → Msgs → Run (Msgs × ErrorCode)
unfolding eq_text cache_add
client_value frame xml m =
    if eq_text (name_get xml) frame then done (m, success) else elim (value_get xml) [
      | none ↦ undefined
      | some value ↦ done (cache_add (name_get xml) value m, success)
    ]

module _ (has_socket : Bool) (kernel : ℕ → ℕ → Answer) where
  -- `if (writeNet (str)) return not_supported; else return success;`
  unfoldable pub send : Text → Msgs → Run (Msgs × ErrorCode)
  unfolding write_net is_zero
  send str m = write_net has_socket (length str) (kernel (length m.sent)) >>= λ n.
      done (record m { sent = m.sent ++ str ∷ [] }, if is_zero n then success else not_supported)

  -- `statusProcess`.
  unfoldable pub status_node : XmlNode → Msgs → Run (Msgs × ErrorCode)
  unfolding send status_answer client_value
  status_node xml m = elim m.net_mode [
    | daemon ↦ elim (value_get xml) [
      | none ↦ undefined
      | some value ↦ send (status_answer m value) m
    ]
    | client ↦ client_value (codes "status") xml m
    | nonet ↦ done (m, not_supported)
  ]

  -- `metersProcess`.
  unfoldable pub meters_node : XmlNode → Msgs → Run (Msgs × ErrorCode)
  unfolding send cache_get meters_response_create
  meters_node xml m = elim m.net_mode [
    | daemon ↦ elim (value_get xml) [
      | none ↦ undefined
      | some value ↦ send (meters_response_create m value (cache_get value m)) m
    ]
    | client ↦ done (m, not_supported)
    | nonet ↦ done (m, not_supported)
  ]

  -- `commandProcess`.
  unfoldable pub command_node : XmlNode → Msgs → Run (Msgs × ErrorCode)
  unfolding send command_answer client_value
  command_node xml m = elim (value_get xml) [
    | none ↦ done (m, not_supported)
    | some value ↦ elim m.net_mode [
      | daemon ↦ send (command_answer m value) m
      | client ↦ client_value (codes "command") xml m
      | nonet ↦ done (m, not_supported)
    ]
  ]

  -- `chargeAmpsProcess`, and the nine other functions with the same body: they only look at whether
  -- there is a value.
  unfoldable pub needs_value : XmlNode → Msgs → Run (Msgs × ErrorCode)
  needs_value xml m = elim (value_get xml) [
    | none ↦ done (m, not_supported)
    | some value ↦ done (m, success)
  ]

  -- `batteryVoltsProcess`.
  unfoldable pub battery_volts_node : XmlNode → Msgs → Run (Msgs × ErrorCode)
  battery_volts_node xml m = elim m.net_mode [
    | client ↦ done (m, success)
    | daemon ↦ done (m, not_supported)
    | nonet ↦ done (m, not_supported)
  ]

  -- The call of a function of the table: `powerguruProcess` only logs whether the versions match,
  -- `loadAmpsProcess` whether there is a value; `configProcess` is `unimplementedProcess`.
  unfoldable pub call : Method → XmlNode → Msgs → Run (Msgs × ErrorCode)
  unfolding status_node meters_node command_node needs_value battery_volts_node send check_host
      check_client unimplemented_answer
  call powerguru_process xml m = done (m, success)
  call helo_process xml m = done (m, not_supported)
  call client_process xml m = check_client m xml >>= λ code. done (m, code)
  call server_process xml m = check_host m.thisip m.thishost xml >>= λ code. done (m, code)
  call meters_process xml m = meters_node xml m
  call load_amps_process xml m = done (m, success)
  call battery_volts_process xml m = battery_volts_node xml m
  call status_process xml m = status_node xml m
  call config_process xml m = send (unimplemented_answer m (name_get xml)) m
  call command_process xml m = command_node xml m
  call charge_amps_process xml m = needs_value xml m
  call pv_amps_process xml m = needs_value xml m
  call pv_volts_process xml m = needs_value xml m
  call daily_kwh_process xml m = needs_value xml m
  call hertz_process xml m = needs_value xml m
  call buy_amps_process xml m = needs_value xml m
  call sell_amps_process xml m = needs_value xml m
  call ac_volts_out_process xml m = needs_value xml m
  call ac1_in_process xml m = needs_value xml m
  call ac2_in_process xml m = needs_value xml m

  -- `process`: the function of the tag, whose result is only logged, then the children.
  unfoldable pub run_method : XmlNode → Msgs → Run Msgs
  unfolding method_get call
  run_method xml m = elim (method_get (name_get xml)) [
    | none ↦ undefined
    | some method ↦ call method xml m >>= λ r. done r.0
  ]

  unfoldable mutual
    unfolding run_method

    pub process : XmlNode → Msgs → Run Msgs
    process (node name value attributes children) m =
        run_method (node name value attributes children) m >>= λ m'. process_children children m'

    pub process_children : Children → Msgs → Run Msgs
    process_children no_child m = done m
    process_children (child xml children) m = process xml m >>= λ m'. process_children children m'

-- ===== src/Network/Receive.antt =====
-- lib/tcpip.cc: `Tcpip::anydata`, which reads from the socket and breaks what it reads into messages,
-- and `readNet`.
use powerguru.Prelude.{
  ℕ, zero, suc, ◌+◌, ◌==◌, leb, Bool, false, List, [], ◌∷◌, ◌++◌, Option, none, some, Text, codes,
  length, take, if◌then◌else◌,
}
use mathlib.Core.Path.{◌≡◌, refl}
use powerguru.Std.Run.{Run, done, undefined, ◌>>=◌}
use powerguru.Std.Str.{rfind}
use powerguru.Outback.Device.{RetCode, success, error}
use powerguru.Network.Device.{
  Tcpip, Selected, interrupted, failed, timed_out, ready, is_positive, is_socket,
}

-- `INBUF`.
abbrev pub inbuf : ℕ
inbuf = 2048

-- A buffer of `size` zeros that a call of `read` filled with bytes.
unfoldable pub filled : ℕ → Text → Text
filled zero s = []
filled (suc size) [] = 0 ∷ filled size []
filled (suc size) (c ∷ s) = c ∷ filled size s

-- The text up to the first NUL and what stands behind the NUL; without a NUL, `strlen` reads on behind
-- the buffer.
unfoldable pub c_split : Text → Option (Text × Text)
c_split [] = none
c_split (c ∷ s) =
    let rest : Option (Text × Text) = elim (c_split s) [
      | none ↦ none
      | some (t, r) ↦ some (c ∷ t, r)
    ] in
    if c == 0 then some ([], s) else rest

-- The packet without its last line end and what follows it.
unfoldable pub cut : Text → Text
unfolding rfind
cut packet = elim (rfind 10 packet) [ none ↦ packet | some i ↦ take i packet ]

unfoldable pub is_xml : Text → Bool
is_xml [] = false
is_xml (c ∷ s) = c == b'<'

-- The next packet and the pointer behind it. It is copied to `room` bytes, which the code never sets:
-- a larger packet is written behind them. What is left of an earlier call comes first.
unfoldable pub take_packet : ℕ → Option Text → Text → Run (Text × Text)
unfolding c_split
take_packet room none ptr = elim (c_split ptr) [
  | none ↦ undefined
  | some (s, next) ↦ if leb (length s + 1) room then done (s, next) else undefined
]
take_packet room (some leftover) ptr = elim (c_split ptr) [
  | none ↦ undefined
  | some (s, next) ↦
      if leb (length (leftover ++ s) + 1) room
      then elim next [ [] ↦ undefined | c ∷ next' ↦ done (leftover ++ s, next') ]
      else undefined
]

-- The loop over the packets of a buffer: the messages, and the pointer where it stops. Each round
-- passes a NUL, so one round for each byte is enough.
unfoldable pub split_loop : ℕ → ℕ → Option Text → Text → List Text → Run (List Text × Text)
unfolding take_packet c_split is_xml cut
split_loop zero room leftover ptr msgs = undefined
split_loop (suc fuel) room leftover ptr msgs = take_packet room leftover ptr >>= λ p.
    let (packet, next) = p in
    let more : Run (List Text × Text) = elim (c_split next) [
      | none ↦ undefined
      | some _ ↦ split_loop fuel room none next (msgs ++ cut packet ∷ [])
    ] in
    if is_xml packet then more else elim next [ [] ↦ undefined | c ∷ s ↦ done (msgs, c ∷ s) ]

-- What a call leaves: its result, the messages of the caller's vector, and `leftover`, which is static.
pub record Received : Type 0 where
  pub code : RetCode
  pub msgs : List Text
  pub leftover : Option Text

-- What the code makes of the bytes of a call of `read`.
unfoldable pub split_data : ℕ → Option Text → Text → List Text → Run Received
split_data room leftover bytes msgs = elim (c_split (filled inbuf bytes)) [
  | none ↦ undefined
  | some (s, _) ↦
      let single : Run Received =
        if leb (length s + 1) room
        then done (record { code = success; msgs = msgs ++ cut s ∷ []; leftover = leftover })
        else undefined in
      let several : Run Received =
        split_loop (inbuf + 1) room leftover (filled inbuf bytes) msgs >>= λ p. elim (c_split p.1) [
          | none ↦ undefined
          | some (rest, _) ↦ done (record {
            code = elim p.0 [ [] ↦ error | m ∷ ms ↦ success ];
            msgs = p.0;
            leftover = elim rest [ [] ↦ none | c ∷ t ↦ some (c ∷ t) ];
          })
        ] in
      if length bytes == length s + 1 then single else several
]

-- The answer of `read`: at most `inbuf - 2` bytes, the end of the connection, `EAGAIN` or another error.
pub data Arrived : Type 0 where
  bytes : Text → Arrived
  closed again broken : Arrived

pub record Arrival : Type 0 where
  pub select : Selected
  pub read : Arrived

-- `while (retries-- > 0)`, from the round `i`.
unfoldable pub anydata_loop : ℕ → ℕ → ℕ → (ℕ → Arrival) → Option Text → List Text → Run Received
anydata_loop zero i room kernel leftover msgs =
    done (record { code = success; msgs = msgs; leftover = leftover })
anydata_loop (suc retries) i room kernel leftover msgs =
    let next = anydata_loop retries (i + 1) room kernel leftover msgs in
    let give_up : RetCode → Run Received =
      λ r. done (record { code = r; msgs = msgs; leftover = leftover }) in
    elim (kernel i).select [
      | interrupted ↦ next
      | timed_out ↦ give_up success
      | failed ↦ give_up error
      | ready ↦ elim (kernel i).read [
        | bytes s ↦ split_data room leftover s msgs
        | closed ↦ give_up error
        | again ↦ next
        | broken ↦ give_up error
      ]
    ]

-- `anydata (msgs)`.
unfoldable pub anydata : ℕ → (ℕ → Arrival) → Tcpip → Option Text → List Text → Run Received
unfolding anydata_loop
anydata room kernel o leftover msgs =
    if is_positive o.sockfd
    then anydata_loop 10 0 room kernel leftover msgs
    else done (record { code = error; msgs = msgs; leftover = leftover })

-- `readNet`: whether `select` found something or time is left, the bytes that wait as `FIONREAD` says,
-- and what `read` stores of them. The buffer has one byte more, which stays 0.
unfoldable pub read_net : Bool → ℕ → Text → Tcpip → Text
unfolding filled
read_net has_data waiting stored o =
    if is_socket o.sockfd then (if has_data then filled (waiting + 1) stored else []) else 255 ∷ []

two_messages :
    split_data 64 none (codes "<a>1</a>\n" ++ 0 ∷ codes "<b>2</b>\n" ++ 0 ∷ []) []
    ≡ done (record {
      code = success;
      msgs = codes "<a>1</a>" ∷ codes "<b>2</b>" ∷ [];
      leftover = none;
    })
unfolding split_data split_loop filled cut
two_messages = refl

-- ===== src/Gateway/Dispatch.antt =====
-- rpc-gateway.mjs, `createRpcGateway`: what is forwarded for a validated envelope, and what is answered.
-- What the upstream answers, whether the deadline has passed and whether writes are permitted come from outside.
pub mod Sent
pub mod Order
pub mod Slots
use oncm.Prelude.{
  ℕ, zero, ◌-◌, Bool, true, false, ◌&&◌, ◌||◌, not, Option, none, some, List, [], ◌∷◌, length,
  get_elem?, leb, ltb, ◌==◌, if◌then◌else◌, String, is_same, includes, Result, ok, throw,
}
use oncm.Prelude.Int.{pos, negsuc}
use oncm.Gateway.Json.{
  Json, str, num, obj, nil, Fields, Error, writes_disabled, invalid_params, upstream_failed, member,
  with_field,
}
use oncm.Gateway.Hex.{quantity, hex_text}
use oncm.Gateway.Params.{is_undefined}
use oncm.Gateway.Envelope.{RequestId, text, whole, negative, Call}

-- `sent` has the requests that were forwarded, the latest first; `head` the latest block, once it is known.
pub record Wire : Type 0 where
  pub sent : List Call
  pub head : Option ℕ
  pub broadcast_started : Bool

-- What becomes of a request that follows a number of others: its parsed response, if one comes.
pub record Outside : Type 0 where
  pub response : ℕ → Call → Option Json
  pub is_aborted : ℕ → Bool
  pub permitted : Option Bool
  pub printed_size : List Fields → ℕ

abbrev pub is_id : RequestId → Option Json → Bool
is_id (text s) (some (str t)) = is_same t s
is_id (whole n) (some (num (pos m) zero)) = m == n
is_id (negative n) (some (num (negsuc m) zero)) = m == n
is_id _ _ = false

abbrev pub is_text : String → Option Json → Bool
is_text s (some (str t)) = is_same t s
is_text s _ = false

-- The test of a response: the version, the id, and one of a result and an error.
unfoldable pub is_reply : Call → Fields → Bool
is_reply c fs =
    is_text "2.0" (member "jsonrpc" fs)
    && is_id c.id (member "id" fs)
    && (if is_undefined (member "result" fs)
        then not (is_undefined (member "error" fs))
        else is_undefined (member "error" fs))

-- `forward`, on what came back
unfoldable pub received : Call → Option Json → Result Error Fields
unfolding is_reply
received c none = throw upstream_failed
received c (some (obj fs)) = if is_reply c fs then ok fs else throw invalid_params
received c (some _) = throw invalid_params

unfoldable pub forward : Outside → Call → Wire → Wire × Result Error Fields
unfolding received
forward out c w = (
  record { sent = c ∷ w.sent; head = w.head; broadcast_started = w.broadcast_started },
  received c (out.response (length w.sent) c),
)

abbrev pub head_call : Call
head_call = record { id = text "gateway-head"; method = "eth_blockNumber"; params = [] }

unfoldable pub result_of : Result Error Fields → Result Error ℕ
unfolding quantity
result_of (throw e) = throw e
result_of (ok fs) = elim (member "result" fs) [ none ↦ throw invalid_params | some x ↦ quantity x ]

unfoldable pub keep_head : Wire → Result Error ℕ → Wire
keep_head w (throw e) = w
keep_head w (ok n) = record {
  sent = w.sent;
  head = some n;
  broadcast_started = w.broadcast_started;
}

-- The latest block, asked for where it is not known.
unfoldable pub head_or_ask : Outside → Wire → Option ℕ → Wire × Result Error ℕ
unfolding forward result_of keep_head
head_or_ask out w (some n) = (w, ok n)
head_or_ask out w none = (
  keep_head (forward out head_call w).0 (result_of (forward out head_call w).1),
  result_of (forward out head_call w).1,
)

abbrev pub ask_head : Outside → Wire → Wire × Result Error ℕ
ask_head out w = head_or_ask out w w.head

abbrev pub head_tags : List String
head_tags = "latest" ∷ "pending" ∷ "safe" ∷ "finalized" ∷ []

-- `number`
unfoldable pub number : Outside → Option Json → Wire → Wire × Result Error ℕ
unfolding head_or_ask quantity
number out none w = ask_head out w
number out (some (str s)) w =
    if is_same s "earliest"
    then (w, ok 0)
    else if includes head_tags s
    then ask_head out w
    else (w, quantity (str s))
number out (some x) w = (w, quantity x)

unfoldable pub with_range : ℕ → ℕ → Fields → Call → Call
unfolding with_field hex_text
with_range from to fs c = record {
  id = c.id;
  method = c.method;
  params =
      obj
        (with_field "toBlock" (str (hex_text to)) (with_field "fromBlock" (str (hex_text from)) fs))
      ∷ [];
}

-- `to>=from&&to-from<RPC_LIMITS.logBlocks`
unfoldable pub ranged : Fields → Call → Result Error ℕ → Result Error ℕ → Result Error Call
unfolding with_range
ranged fs c (ok from) (ok to) =
    if leb from to && ltb (to - from) 2000
    then ok (with_range from to fs c)
    else throw invalid_params
ranged fs c (throw e) _ = throw e
ranged fs c (ok _) (throw e) = throw e

-- `number` of the second tag, unless that of the first has failed
unfoldable pub number_after : Outside → Result Error ℕ → Option Json → Wire → Wire × Result Error ℕ
unfolding number
number_after out (throw e) tag w = (w, throw e)
number_after out (ok n) tag w = number out tag w

-- The filter of a request for logs by a range, which is admitted before anything is forwarded.
abbrev pub range_filter : Call → Option Fields
range_filter c =
    if is_same c.method "eth_getLogs"
    then (elim (get_elem? c.params 0) [
      | some (obj fs) ↦ (if is_undefined (member "blockHash" fs) then some fs else none)
      | _ ↦ none
    ])
    else none

unfoldable pub admit_range : Outside → Fields → Call → Wire → Wire × Result Error Call
unfolding number ranged number_after
admit_range out fs c w =
    let from = number out (member "fromBlock" fs) w in
    let to = number_after out from.1 (member "toBlock" fs) from.0 in (to.0, ranged fs c from.1 to.1)

unfoldable pub admit_call : Outside → Call → Wire → Wire × Result Error Call
unfolding admit_range
admit_call out c w = elim (range_filter c) [ none ↦ (w, ok c) | some fs ↦ admit_range out fs c w ]

unfoldable pub consed {ℓ} : {A : Type ℓ} → A → Result Error (List A) → Result Error (List A)
consed x (ok xs) = ok (x ∷ xs)
consed x (throw e) = throw e

unfoldable pub admit_calls : Outside → List Call → Wire → Wire × Result Error (List Call)
unfolding admit_call consed
admit_calls out [] w = (w, ok [])
admit_calls out (c ∷ cs) w =
    let first = admit_call out c w in
    let rest = admit_calls out cs first.0 in
    elim (first.1) [ throw e ↦ (first.0, throw e) | ok d ↦ (rest.0, consed d rest.1) ]

unfoldable pub id_json : RequestId → Json
id_json (text s) = str s
id_json (whole n) = num (pos n) 0
id_json (negative n) = num (negsuc n) 0

-- The answer to `eth_accounts`, which is not forwarded.
unfoldable pub no_accounts : RequestId → Fields
unfolding id_json
no_accounts x =
    Fields.field "jsonrpc" (str "2.0")
      (Fields.field "id" (id_json x) (Fields.field "result" (Json.arr nil) Fields.end))

unfoldable pub started : Call → Wire → Wire
started c w = record {
  sent = w.sent;
  head = w.head;
  broadcast_started = w.broadcast_started || is_same c.method "eth_sendRawTransaction";
}

unfoldable pub send_call : Outside → Call → Wire → Wire × Result Error Fields
unfolding forward started no_accounts
send_call out c w =
    if out.is_aborted (length w.sent)
    then (w, throw upstream_failed)
    else if is_same c.method "eth_accounts"
    then (started c w, ok (no_accounts c.id))
    else forward out c (started c w)

unfoldable pub send_calls : Outside → List Call → Wire → Wire × Result Error (List Fields)
unfolding send_call consed
send_calls out [] w = (w, ok [])
send_calls out (c ∷ cs) w =
    let first = send_call out c w in
    let rest = send_calls out cs first.0 in
    elim (first.1) [ throw e ↦ (first.0, throw e) | ok fs ↦ (rest.0, consed fs rest.1) ]

-- Whether the envelope may go on: a signed transaction needs a permission that came in time.
unfoldable pub permission : Outside → List Call → Result Error (Unit {0})
permission out [] = ok tt
permission out (c ∷ cs) =
    if is_same c.method "eth_sendRawTransaction"
    then (elim out.permitted [
      | none ↦ throw upstream_failed
      | some true ↦ ok tt
      | some false ↦ throw writes_disabled
    ])
    else ok tt

unfoldable pub sized : Outside → Result Error (List Fields) → Result Error (List Fields)
sized out (throw e) = throw e
sized out (ok body) = if leb (out.printed_size body) 2097152 then ok body else throw invalid_params

unfoldable pub send_admitted :
    Outside → Wire × Result Error (List Call) → Wire × Result Error (List Fields)
unfolding send_calls sized
send_admitted out (w, throw e) = (w, throw e)
send_admitted out (w, ok cs) = ((send_calls out cs w).0, sized out (send_calls out cs w).1)

abbrev pub no_wire : Wire
no_wire = record { sent = []; head = none; broadcast_started = false }

-- The `try` of `dispatch`, once it has a slot.
unfoldable pub serve : Outside → List Call → Wire × Result Error (List Fields)
unfolding permission admit_calls send_admitted
serve out cs = elim (permission out cs) [
  | throw e ↦ (no_wire, throw e)
  | ok _ ↦ send_admitted out (admit_calls out cs no_wire)
]

-- The status of the answer, and whether it says that the outcome of a broadcast is unknown.
unfoldable pub answer : Wire × Result Error (List Fields) → ℕ × Bool
answer (w, ok body) = (200, false)
answer (w, throw writes_disabled) = (403, w.broadcast_started)
answer (w, throw e) = (502, w.broadcast_started)

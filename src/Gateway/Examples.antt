-- ===== src/Gateway/Examples.antt =====
-- Envelopes of one transaction and of several readings, checked and served.
use oncm.Prelude.{
  ℕ, ◌≤◌, ◌<◌, ◌≡◌, refl, ◌⊎◌, true, false, Option, none, some, List, [], ◌∷◌, length, get_elem?,
  All, Among, if◌then◌else◌, String, is_same, ok, throw, arith,
}
use oncm.Prelude.Int.{pos}
use oncm.Gateway.Json.{
  Json, null, str, num, arr, obj, nil, cons, Fields, end, field, member, invalid_params, no_method,
}
use oncm.Gateway.Hex.{quantity, hex_text}
use oncm.Gateway.Params.{Library, Transaction, call, gas_limit}
use oncm.Gateway.Envelope.{
  RequestId, text, whole, Call, Envelope, as_list, is_array, validate_rpc_envelope,
}
use oncm.Gateway.Admitted.{AllDiffer, AllChecked, validate_rpc_envelope-AllChecked}
use oncm.Gateway.Transactions.{Sendable}
use oncm.Gateway.Quantities.{quantity-hex_text}
use oncm.Gateway.Gas.{call-capped}
use oncm.Gateway.Dispatch.{Outside, head_call, no_wire, admit_calls, serve, answer, id_json}
use oncm.Gateway.Dispatch.Sent.{Forwarded, serve-Forwarded, serve_refused}
use oncm.Gateway.Dispatch.Order.{Answers, serve-Answers, sent_permitted}
use oncm.Gateway.Dispatch.Slots.{
  State, Policy, dispatches, dispatch, Sound, held, SemaphoreStep, Step-Semaphore,
}

abbrev a_transaction : Transaction
a_transaction = record {
  kind = 2;
  is_signed = true;
  sender = some "0x0a";
  chain_id = 31373;
  is_canonical = true;
  gas_limit = 21000;
  input = "0x";
}

abbrev lib : Library
lib = record {
  is_address = λ s. is_same s "0x0a";
  transaction_from = λ s. if is_same s "0x02" then some a_transaction else none;
  is_dev_sender = λ s. is_same s "0x0d";
}

abbrev request : Json → String → Json → Json
request x m ps =
    obj
      (field "jsonrpc" (str "2.0") (field "id" x (field "method" (str m) (field "params" ps end))))

abbrev write : Json
write = request (num (pos 7) 0) "eth_sendRawTransaction" (arr (cons (str "0x02") nil))

abbrev logs : String → Json
logs from = arr (
    cons
      (obj (
        field "address" (str "0x0a")
          (field "fromBlock" (str from) (field "toBlock" (str "latest") end))))
      nil)

abbrev reads : String → Json
reads from = arr (
    cons (request (str "a") "eth_accounts" null) (
      cons (request (num (pos 1) 0) "eth_getLogs" (logs from))
        (cons (request (num (pos 2) 0) "eth_gasPrice" null) nil)))

abbrev write_envelope : Envelope
write_envelope = record {
  is_batch = false;
  calls = record { id = whole 7; method = "eth_sendRawTransaction"; params = str "0x02" ∷ [] } ∷ [];
}

abbrev read_calls : String → List Call
read_calls from =
    record { id = text "a"; method = "eth_accounts"; params = [] }
    ∷ record {
      id = whole 1;
      method = "eth_getLogs";
      params =
          obj (
            field "address" (str "0x0a")
              (field "fromBlock" (str from) (field "toBlock" (str "latest") end)))
          ∷ [];
    }
    ∷ record { id = whole 2; method = "eth_gasPrice"; params = [] }
    ∷ []

-- The block is 0x1000, and every other request is answered with null.
abbrev reply : Call → Option Json
reply c = some (
    obj (
      field "jsonrpc" (str "2.0") (
        field "id" (name c.id) (
          field "result" (if is_same c.method "eth_blockNumber" then str "0x1000" else null) end))))
  where
    name : RequestId → Json
    name (text s) = str s
    name (whole n) = num (pos n) 0
    name (RequestId.negative n) = null

abbrev outside : Outside
outside = record {
  response = λ n c. reply c;
  is_aborted = λ n. false;
  permitted = some true;
  printed_size = λ b. 100;
}

writes : validate_rpc_envelope lib true write ≡ ok write_envelope
unfolding validate_rpc_envelope
writes = refl

reads_pass :
    validate_rpc_envelope lib false (reads "0xf00")
    ≡ ok record { is_batch = true; calls = read_calls "0xf00" }
unfolding validate_rpc_envelope
reads_pass = refl

-- A batch may not write, two requests may not share an id, and other methods are not offered.
batch_write : validate_rpc_envelope lib true (arr (cons write nil)) ≡ throw invalid_params
unfolding validate_rpc_envelope
batch_write = refl

same_ids :
    validate_rpc_envelope lib false (
      arr (
        cons
          (request (num (pos 2) 0) "eth_gasPrice" null)
          (cons (request (num (pos 2) 0) "eth_chainId" null) nil)))
    ≡ throw invalid_params
unfolding validate_rpc_envelope
same_ids = refl

not_offered :
    validate_rpc_envelope lib true (request (num (pos 2) 0) "eth_sign" null) ≡ throw no_method
unfolding validate_rpc_envelope
not_offered = refl

abbrev null_reply : RequestId → Fields
null_reply x = field "jsonrpc" (str "2.0") (field "id" (id_json x) (field "result" null end))

abbrev bodies : List Fields
bodies =
    field "jsonrpc" (str "2.0") (field "id" (str "a") (field "result" (arr nil) end))
    ∷ field "jsonrpc" (str "2.0") (field "id" (num (pos 1) 0) (field "result" null end))
    ∷ field "jsonrpc" (str "2.0") (field "id" (num (pos 2) 0) (field "result" null end))
    ∷ []

serves : (serve outside (read_calls "0xf00")).1 ≡ ok bodies
unfolding serve
serves = refl

too_wide : (admit_calls outside (read_calls "0x1") no_wire).1 ≡ throw invalid_params
unfolding admit_calls
too_wide = refl

broadcasts : (serve outside write_envelope.calls).0.sent ≡ write_envelope.calls
unfolding serve
broadcasts = refl

-- The upstream does not answer the transaction: its outcome is unknown.
unknown_outcome :
    answer (serve (record outside { response = λ n c. none }) write_envelope.calls) ≡ (502, true)
unfolding answer serve
unknown_outcome = refl

forbidden :
    answer (serve (record outside { permitted = some false }) write_envelope.calls) ≡ (403, false)
unfolding answer serve
forbidden = refl

validate_rpc_envelope-AllChecked_example :
    (0 < 1)
    × (1 ≤ 10)
    × (1 ≡ length (as_list write))
    × (false ≡ is_array write)
    × AllDiffer write_envelope.calls
    × AllChecked lib true false write_envelope.calls
validate_rpc_envelope-AllChecked_example =
    validate_rpc_envelope-AllChecked lib true write write_envelope writes

quantity-hex_text_example : quantity (str (hex_text 3840)) ≡ ok 3840
quantity-hex_text_example = quantity-hex_text 3840 (omega arith)

abbrev simulated : Json
simulated = obj (field "to" (str "0x0a") (field "data" (str "0x1234") end))

simulates :
    call lib simulated
    ≡ ok (
        obj (
          field "to" (str "0x0a") (field "data" (str "0x1234") (field "gas" (str "0xe4e1c0") end))))
unfolding call
simulates = refl

call-capped_example :
    (fs : Fields) × (gas : ℕ) × (obj
        (field "to" (str "0x0a") (field "data" (str "0x1234") (field "gas" (str "0xe4e1c0") end)))
      ≡ obj fs)
    × (member "gas" fs ≡ some (str (hex_text gas)))
    × (quantity (str (hex_text gas)) ≡ ok gas)
    × (0 < gas)
    × (gas ≤ gas_limit)
call-capped_example =
    call-capped lib simulated
      (obj
        (field "to" (str "0x0a") (field "data" (str "0x1234") (field "gas" (str "0xe4e1c0") end))))
      simulates

serve-Forwarded_example :
    All (Forwarded (read_calls "0xf00")) (serve outside (read_calls "0xf00")).0.sent
serve-Forwarded_example = serve-Forwarded outside (read_calls "0xf00")

serve_refused_example :
    ((serve outside (read_calls "0x1")).0.sent ≡ [])
    ⊎ ((serve outside (read_calls "0x1")).0.sent ≡ head_call ∷ [])
serve_refused_example = serve_refused outside (read_calls "0x1") invalid_params too_wide

serve-Answers_example : Answers (read_calls "0xf00") bodies × (100 ≤ 2097152)
serve-Answers_example = serve-Answers outside (read_calls "0xf00") bodies serves

abbrev the_write : Call
the_write = record { id = whole 7; method = "eth_sendRawTransaction"; params = str "0x02" ∷ [] }

write_sent : Among the_write (serve outside write_envelope.calls).0.sent
write_sent = (0, first)
  where
    first : get_elem? (serve outside write_envelope.calls).0.sent 0 ≡ some the_write
    first = rw broadcasts refl

sent_permitted_example :
    (some true ≡ some true)
    × (◌≡◌ {A = ℕ} 1 1)
    × (raw : String) × (get_elem? the_write.params 0 ≡ some (str raw))
    × Sendable lib raw
sent_permitted_example =
    sent_permitted outside lib true write write_envelope the_write writes write_sent refl

abbrev policy : Policy
policy = record { most_inflight = 4; per_minute = 1200 }

abbrev one_waits : State
one_waits = record { inflight = 2; buckets = []; running = 1; waiting = 1 }

Step-Semaphore_example :
    Sound policy (dispatch lib policy 0 (some write) one_waits).0
    × SemaphoreStep 4 2 (held (dispatch lib policy 0 (some write) one_waits).0)
Step-Semaphore_example =
    Step-Semaphore lib policy {s = one_waits} (dispatches 0 (some write)) (omega arith, omega arith)

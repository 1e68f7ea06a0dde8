-- ===== src/Gateway/Envelope.antt =====
-- rpc-gateway.mjs, `validateRpcEnvelope`: the requests of an envelope are checked together, before any is forwarded.
use oncm.Prelude.{
  ℕ, zero, ◌+◌, ◌*◌, ◌^◌, Bool, true, false, ◌&&◌, not, none, some, List, [], ◌∷◌, length, leb, ltb,
  ◌==◌, if◌then◌else◌, String, is_same, includes, get_elem?, utf16_length, Result, ok, throw, ◌>>=◌,
  ◌>>◌,
}
use oncm.Prelude.Int.{pos, negsuc}
use oncm.Gateway.Json.{
  Json, null, bool, num, str, arr, nil, Fields, items, member, Error, invalid_params, no_method,
  require_that, fields_of, count, text_of,
}
use oncm.Gateway.Hex.{quantity, bytes}
use oncm.Gateway.Params.{
  Library, optional, each, address, block, required, list_of, call, is_undefined,
  validate_raw_transaction,
}

-- An id of a request: a text, or a safe integer by whether it is negative and by its size.
pub data RequestId : Type 0 where
  text : String → RequestId
  whole : ℕ → RequestId
  negative : ℕ → RequestId

abbrev pub is_same_id : RequestId → RequestId → Bool
is_same_id (text s) (text t) = is_same s t
is_same_id (whole m) (whole n) = m == n
is_same_id (negative m) (negative n) = m == n
is_same_id _ _ = false

abbrev pub is_id_among : List RequestId → RequestId → Bool
is_id_among [] x = false
is_id_among (y ∷ ys) x = if is_same_id y x then true else is_id_among ys x

pub record Call : Type 0 where
  pub id : RequestId
  pub method : String
  pub params : List Json

pub record Envelope : Type 0 where
  pub is_batch : Bool
  pub calls : List Call

-- `Number.isSafeInteger`, and texts of at most 128 units
unfoldable pub id_of : Json → Result Error RequestId
id_of (str s) = if leb (utf16_length s) 128 then ok (text s) else throw invalid_params
id_of (num (pos n) zero) = if ltb n (2 ^ 53) then ok (whole n) else throw invalid_params
id_of (num (negsuc n) zero) = if ltb (n + 1) (2 ^ 53) then ok (negative n) else throw invalid_params
id_of _ = throw invalid_params

unfoldable pub param : ℕ → List Json → Result Error Json
param k xs = required (get_elem? xs k)

abbrev pub plain_methods : List String
plain_methods =
    "eth_chainId" ∷ "net_version" ∷ "eth_blockNumber" ∷ "eth_gasPrice" ∷ "eth_maxPriorityFeePerGas"
    ∷ "eth_syncing" ∷ "eth_accounts" ∷ []

abbrev pub account_methods : List String
account_methods = "eth_getBalance" ∷ "eth_getCode" ∷ "eth_getTransactionCount" ∷ []

abbrev pub hash_methods : List String
hash_methods = "eth_getTransactionByHash" ∷ "eth_getTransactionReceipt" ∷ []

abbrev pub block_methods : List String
block_methods = "eth_getBlockByNumber" ∷ "eth_getBlockByHash" ∷ []

abbrev pub run_methods : List String
run_methods = "eth_call" ∷ "eth_estimateGas" ∷ []

-- Percentiles are between 0 and 100 and do not descend; the first argument is the one before, if any.
unfoldable pub percentiles : ℕ → ℕ → List Json → Bool
percentiles above below [] = true
percentiles above below (num (pos n) d ∷ xs) =
    leb n (100 * (d + 1)) && leb (above * (d + 1)) (n * (below + 1)) && percentiles n d xs
percentiles above below _ = false

unfoldable pub check_fee_history : List Json → Result Error (List Json)
unfolding param percentiles list_of quantity block
check_fee_history params = do
  blocks ← param 0 params >>= quantity
  require_that (ltb 0 blocks && leb blocks 20)
  _ ← param 1 params >>= block
  given ← param 2 params
  rewards ← list_of given 20
  require_that (percentiles 0 0 rewards)
  ok params

-- `Array.isArray(x)?x:[x]`
abbrev pub as_list : Json → List Json
as_list (arr xs) = items xs
as_list x = x ∷ []

unfoldable pub check_topic : Json → Result Error (Unit {0})
unfolding each bytes
check_topic null = ok tt
check_topic topic = do
  require_that (leb (length (as_list topic)) 64)
  each (λ x. bytes x 32 (some 32)) (as_list topic)

unfoldable pub check_range : Fields → Result Error (Unit {0})
unfolding optional block
check_range fs = elim (member "blockHash" fs) [
  | some hash ↦ bytes hash 32 (some 32) >>= λ _.
      require_that (is_undefined (member "fromBlock" fs) && is_undefined (member "toBlock" fs))
  | none ↦ optional (member "fromBlock" fs) block >> optional (member "toBlock" fs) block
]

unfoldable pub check_logs : Library → List Json → Result Error (List Json)
unfolding param each address optional check_topic list_of check_range fields_of required
check_logs lib params = do
  filter ← param 0 params
  fs ← fields_of filter ("address" ∷ "topics" ∷ "fromBlock" ∷ "toBlock" ∷ "blockHash" ∷ [])
  given ← required (member "address" fs)
  require_that (ltb 0 (length (as_list given)) && leb (length (as_list given)) 16)
  each (address lib) (as_list given)
  optional (member "topics" fs) (λ ts. list_of ts 4 >>= each check_topic)
  check_range fs
  ok params

unfoldable pub boolean_of : Json → Result Error Bool
boolean_of (bool b) = ok b
boolean_of _ = throw invalid_params

unfoldable pub check_run : Library → List Json → Result Error (List Json)
unfolding call block
check_run lib (x ∷ []) = call lib x >>= λ y. ok (y ∷ [])
check_run lib (x ∷ b ∷ []) = do y ← call lib x; at ← block b; ok (y ∷ at ∷ [])
check_run lib _ = throw invalid_params

unfoldable pub check_account : Library → List Json → Result Error (List Json)
unfolding param address block
check_account lib xs = do _ ← param 0 xs >>= address lib; _ ← param 1 xs >>= block; ok xs

unfoldable pub check_storage : Library → List Json → Result Error (List Json)
unfolding param address block quantity
check_storage lib xs = do
  _ ← param 0 xs >>= address lib
  _ ← param 1 xs >>= quantity
  _ ← param 2 xs >>= block
  ok xs

unfoldable pub check_hash : List Json → Result Error (List Json)
unfolding param bytes
check_hash xs = do _ ← param 0 xs >>= λ h. bytes h 32 (some 32); ok xs

-- A block by its hash, or by its number, and whether its transactions are asked for in full.
unfoldable pub check_block : Bool → List Json → Result Error (List Json)
unfolding param bytes block boolean_of check_hash
check_block by_hash xs = do
  _ ← if by_hash then check_hash xs else (param 0 xs >>= block >>= λ _. ok xs)
  _ ← param 1 xs >>= boolean_of
  ok xs

unfoldable pub check_raw : Library → Bool → List Json → Result Error (List Json)
unfolding param validate_raw_transaction
check_raw lib writes_enabled xs = do
  _ ← param 0 xs >>= validate_raw_transaction lib writes_enabled
  ok xs

-- The checks of a method's parameters, which are the parameters to forward.
unfoldable pub check_method : Library → Bool → Bool → String → Json → Result Error (List Json)
unfolding count check_account check_storage check_hash check_block check_run check_fee_history
    check_logs check_raw
check_method lib writes_enabled is_batch m params =
    if includes plain_methods m
    then count params 0 0
    else if includes account_methods m
    then count params 2 2 >>= check_account lib
    else if is_same m "eth_getStorageAt"
    then count params 3 3 >>= check_storage lib
    else if includes hash_methods m
    then count params 1 1 >>= check_hash
    else if includes block_methods m
    then count params 2 2 >>= check_block (is_same m "eth_getBlockByHash")
    else if includes run_methods m
    then count params 1 2 >>= check_run lib
    else if is_same m "eth_feeHistory"
    then count params 3 3 >>= check_fee_history
    else if is_same m "eth_getLogs"
    then count params 1 1 >>= check_logs lib
    else if is_same m "eth_sendRawTransaction"
    then require_that (not is_batch) >> count params 1 1 >>= check_raw lib writes_enabled
    else throw no_method

-- `req.params??[]`
abbrev pub params_of : Fields → Json
params_of fs = elim (member "params" fs) [ none ↦ arr nil | some null ↦ arr nil | some x ↦ x ]

abbrev pub request_keys : List String
request_keys = "jsonrpc" ∷ "id" ∷ "method" ∷ "params" ∷ []

-- One request, after those with the given ids.
unfoldable pub check_request : Library → Bool → Bool → List RequestId → Json → Result Error Call
unfolding fields_of required text_of id_of check_method
check_request lib writes_enabled is_batch seen request = do
  fs ← fields_of request request_keys
  version ← required (member "jsonrpc" fs) >>= text_of
  require_that (is_same version "2.0")
  given ← required (member "id" fs) >>= id_of
  require_that (not (is_id_among seen given))
  m ← required (member "method" fs) >>= text_of
  xs ← check_method lib writes_enabled is_batch m (params_of fs)
  ok record { id = given; method = m; params = xs }

unfoldable pub check_requests :
    Library → Bool → Bool → List RequestId → List Json → Result Error (List Call)
unfolding check_request
check_requests lib writes_enabled is_batch seen [] = ok []
check_requests lib writes_enabled is_batch seen (x ∷ xs) = do
  c ← check_request lib writes_enabled is_batch seen x
  rest ← check_requests lib writes_enabled is_batch (c.id ∷ seen) xs
  ok (c ∷ rest)

abbrev pub is_array : Json → Bool
is_array (arr _) = true
is_array _ = false

-- `validateRpcEnvelope`
unfoldable pub validate_rpc_envelope : Library → Bool → Json → Result Error Envelope
unfolding check_requests
validate_rpc_envelope lib writes_enabled input = do
  require_that (ltb 0 (length (as_list input)) && leb (length (as_list input)) 10)
  checked ← check_requests lib writes_enabled (is_array input) [] (as_list input)
  ok record { is_batch = is_array input; calls = checked }

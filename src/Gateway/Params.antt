-- ===== src/Gateway/Params.antt =====
-- rpc-gateway.mjs: the checks of addresses, blocks, calls, transactions and filters. What is an address, and what a signed
-- transaction decodes to, are parameters: the library ethers answers them.
use oncm.Prelude.{
  ℕ, Bool, true, false, ◌&&◌, ◌||◌, not, Option, none, some, List, [], ◌∷◌, length, leb, ltb, ◌==◌,
  if◌then◌else◌, String, includes, utf16_length, Result, ok, throw, ◌>>=◌, ◌>>◌, throw_if,
}
use oncm.Gateway.Json.{
  Json, null, str, arr, obj, Fields, items, member, with_field, Error, invalid_params,
  writes_disabled, require_that, fields_of,
}
use oncm.Gateway.Hex.{quantity, bytes, hex_text}

pub record Transaction : Type 0 where
  pub kind : ℕ
  pub is_signed : Bool
  pub sender : Option String
  pub chain_id : ℕ
  pub is_canonical : Bool
  pub gas_limit : ℕ
  pub input : String

-- What the library of the chain answers. `is_canonical` says that the decoded transaction prints back to the text.
pub record Library : Type 0 where
  pub is_address : String → Bool
  pub transaction_from : String → Option Transaction
  pub is_dev_sender : String → Bool

-- `RPC_LIMITS`
abbrev pub data_limit : ℕ
data_limit = 131072

abbrev pub raw_limit : ℕ
raw_limit = 131072

abbrev pub gas_limit : ℕ
gas_limit = 15000000

abbrev pub chain : ℕ
chain = 31373

-- A check of a field that may be missing.
unfoldable pub optional {ℓ} :
    {A : Type ℓ} → Option Json → (Json → Result Error A) → Result Error (Unit {0})
optional none check = ok tt
optional (some x) check = check x >>= λ _. ok tt

unfoldable pub each {ℓ} :
    {A : Type ℓ} → (Json → Result Error A) → List Json → Result Error (Unit {0})
each check [] = ok tt
each check (x ∷ xs) = check x >>= λ _. each check xs

unfoldable pub address : Library → Json → Result Error String
address lib (str s) = if lib.is_address s then ok s else throw invalid_params
address lib _ = throw invalid_params

abbrev pub block_tags : List String
block_tags = "latest" ∷ "pending" ∷ "earliest" ∷ "safe" ∷ "finalized" ∷ []

unfoldable pub block : Json → Result Error Json
unfolding quantity
block (str s) = if includes block_tags s then ok (str s) else quantity (str s) >>= λ _. ok (str s)
block x = throw invalid_params

abbrev pub is_undefined : Option Json → Bool
is_undefined none = true
is_undefined (some _) = false

-- `x===undefined||x===null`
abbrev pub is_missing : Option Json → Bool
is_missing none = true
is_missing (some null) = true
is_missing (some _) = false

abbrev pub call_keys : List String
call_keys =
    "from" ∷ "to" ∷ "data" ∷ "input" ∷ "value" ∷ "gas" ∷ "gasPrice" ∷ "maxFeePerGas"
    ∷ "maxPriorityFeePerGas" ∷ "accessList" ∷ "type" ∷ "nonce" ∷ "chainId" ∷ []

-- `(x.data??x.input??'0x').length>2`, of texts
unfoldable pub has_initcode : Fields → Bool
has_initcode fs = elim (member "data" fs) [
  | some (str s) ↦ ltb 2 (utf16_length s)
  | _ ↦ elim (member "input" fs) [ some (str s) ↦ ltb 2 (utf16_length s) | _ ↦ false ]
]

unfoldable pub list_of : Json → ℕ → Result Error (List Json)
list_of (arr xs) most = if leb (length (items xs)) most then ok (items xs) else throw invalid_params
list_of _ most = throw invalid_params

unfoldable pub required : Option Json → Result Error Json
required none = throw invalid_params
required (some x) = ok x

unfoldable pub access_entry : Library → Json → Result Error (Unit {0})
unfolding required list_of each address bytes fields_of
access_entry lib entry = do
  fs ← fields_of entry ("address" ∷ "storageKeys" ∷ [])
  who ← required (member "address" fs)
  _ ← address lib who
  given ← required (member "storageKeys" fs)
  storage ← list_of given 64
  each (λ k. bytes k 32 (some 32)) storage

unfoldable pub gas_of : Option Json → Result Error ℕ
unfolding quantity
gas_of none = ok gas_limit
gas_of (some x) = do gas ← quantity x; require_that (ltb 0 gas && leb gas gas_limit); ok gas

unfoldable pub check_to : Library → Fields → Result Error (Unit {0})
unfolding optional address
check_to lib fs =
    if is_missing (member "to" fs) then ok tt else optional (member "to" fs) (address lib)

-- `call`, with the tests in the order of the source: what stands before the gas
unfoldable pub check_call : Library → Fields → Result Error (Unit {0})
unfolding optional has_initcode address bytes quantity check_to
check_call lib fs = do
  check_to lib fs
  optional (member "from" fs) (address lib)
  require_that (is_undefined (member "data" fs) || is_undefined (member "input" fs))
  optional (member "data" fs) (λ d. bytes d data_limit none)
  optional (member "input" fs) (λ d. bytes d data_limit none)
  require_that (not (is_missing (member "to" fs)) || has_initcode fs)
  optional (member "value" fs) quantity
  optional (member "gasPrice" fs) quantity
  optional (member "maxFeePerGas" fs) quantity
  optional (member "maxPriorityFeePerGas" fs) quantity
  optional (member "nonce" fs) quantity
  optional (member "chainId" fs) (λ c. quantity c >>= λ n. require_that (n == chain))
  optional (member "type" fs) (λ c. quantity c >>= λ n. require_that (leb n 2))

unfoldable pub check_access : Library → Fields → Result Error (Unit {0})
unfolding optional access_entry list_of each
check_access lib fs =
    optional (member "accessList" fs)
      (λ l. list_of l 64 >>= λ entries. each (access_entry lib) entries)

unfoldable pub call : Library → Json → Result Error Json
unfolding check_call gas_of check_access fields_of with_field hex_text
call lib x = do
  fs ← fields_of x call_keys
  check_call lib fs
  gas ← gas_of (member "gas" fs)
  check_access lib fs
  ok (obj (with_field "gas" (str (hex_text gas)) fs))

unfoldable pub decoded : Library → String → Result Error Transaction
decoded lib raw = elim (lib.transaction_from raw) [ none ↦ throw invalid_params | some tx ↦ ok tx ]

unfoldable pub sender_of : Transaction → Result Error String
sender_of tx = elim (tx.sender) [ none ↦ throw invalid_params | some who ↦ ok who ]

-- `validateRawTransaction`: the sender of an admitted transaction
unfoldable pub validate_raw_transaction : Library → Bool → Json → Result Error String
unfolding decoded sender_of bytes
validate_raw_transaction lib writes_enabled raw = do
  throw_if (not writes_enabled) writes_disabled
  text ← bytes raw raw_limit none
  tx ← decoded lib text
  who ← sender_of tx
  require_that (leb (tx.kind) 2 && tx.is_signed)
  require_that (tx.chain_id == chain)
  require_that (tx.is_canonical)
  require_that (not (lib.is_dev_sender who))
  require_that (ltb 0 (tx.gas_limit) && leb (tx.gas_limit) gas_limit)
  _ ← bytes (str (tx.input)) data_limit none
  ok who

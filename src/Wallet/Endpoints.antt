-- ===== src/Wallet/Endpoints.antt =====
-- local-endpoints.mjs, and `publicOrigin`, `browserConfig` and `walletChain` of public-transport.mjs.
use Prim.Native.Char.{code}
use Prim.Native.String.{◌++◌}
use oncm.Prelude.{
  ℕ, ◌+◌, ◌-◌, ◌*◌, Bool, true, false, ◌&&◌, ◌||◌, not, Option, none, some, leb, ltb, ◌==◌,
  if◌then◌else◌, String, is_same, Result, ok, throw, ◌>>=◌, ◌>>◌, throw_if,
}

pub data Error : Type 0 where
  bad_offset public_mode_on not_loopback bad_origin unsupported_config other_origin
        unsupported_chain invalid_mode other_rpc :
      Error
  rejected unsupported_wallet not_selected no_wallet wrong_network other_deployment read_only
        not_restricted :
      Error
  wallet_failed : ℕ → Error

-- Digits after those that stand for a number.
unfoldable pub digits_from : ℕ → String → Option ℕ
digits_from n String.[] = some n
digits_from n (String.◌∷◌ c s) =
    let rest = digits_from (n * 10 + (code c - 48)) s in
    if leb 48 (code c) && leb (code c) 57 then rest else none

-- `0|[1-9][0-9]*`
unfoldable pub canonical_number : String → Option ℕ
unfolding digits_from
canonical_number String.[] = none
canonical_number (String.◌∷◌ c String.[]) = digits_from 0 (String.◌∷◌ c String.[])
canonical_number (String.◌∷◌ c (String.◌∷◌ d s)) =
    if code c == 48 then none else digits_from 0 (String.◌∷◌ c (String.◌∷◌ d s))

pub record Endpoints : Type 0 where
  pub rpc_port : ℕ
  pub api_port : ℕ
  pub web_port : ℕ

unfoldable pub endpoints_at : Option ℕ → Result Error Endpoints
endpoints_at none = throw bad_offset
endpoints_at (some offset) =
    if ltb 50000 offset
    then throw bad_offset
    else ok record { rpc_port = 9547 + offset; api_port = 4173 + offset; web_port = 5173 + offset }

unfoldable pub local_endpoints : String → Result Error Endpoints
unfolding canonical_number endpoints_at
local_endpoints value = endpoints_at (canonical_number value)

-- `publicMode`: missing or false, true, or another value that counts as true
pub data Mode : Type 0 where
  off on other : Mode

-- A URL of this machine by its name and port, or another text.
pub data Rpc : Type 0 where
  loopback : ℕ → Rpc
  localhost : ℕ → Rpc
  elsewhere : String → Rpc

pub record Config : Type 0 where
  pub public_mode : Mode
  pub chain_id : ℕ
  pub public_origin : String
  pub rpc_url : Rpc
  pub local_port_offset : Option String
  pub public_write_enabled : Bool
  pub wallet_transactions : Bool

abbrev pub is_off : Mode → Bool
is_off off = true
is_off _ = false

abbrev pub is_on : Mode → Bool
is_on on = true
is_on _ = false

abbrev pub is_local_rpc : Rpc → ℕ → Bool
is_local_rpc (loopback p) port = p == port
is_local_rpc (localhost p) port = p == port
is_local_rpc (elsewhere s) port = false

abbrev pub offset_of : Config → String
offset_of config = elim config.local_port_offset [ none ↦ "0" | some text ↦ text ]

unfoldable pub assert_local_config : Config → Result Error Endpoints
unfolding local_endpoints
assert_local_config config = do
  throw_if (not (is_off config.public_mode)) public_mode_on
  endpoints ← local_endpoints (offset_of config)
  throw_if (not (config.chain_id == 31373) || not (is_local_rpc config.rpc_url endpoints.rpc_port))
      not_loopback
  ok endpoints

-- What `new URL` gives: whether it has a scheme of https and nothing but an origin, and the origin.
pub record Url : Type 0 where
  pub is_https : Bool
  pub has_credentials : Bool
  pub has_search_or_hash : Bool
  pub is_root_path : Bool
  pub origin : String

module _ (parse : String → Option Url) where
  unfoldable pub origin_of : Option Url → Result Error String
  origin_of none = throw bad_origin
  origin_of (some url) =
      if url.is_https && not url.has_credentials && not url.has_search_or_hash && url.is_root_path
      then ok url.origin
      else throw bad_origin

  unfoldable pub public_origin : String → Result Error String
  unfolding origin_of
  public_origin text = origin_of (parse text)

  -- the RPC and API URLs of a page of the deployment
  unfoldable pub browser_config : Config → String → Result Error (Option (String × String))
  unfolding public_origin
  browser_config config origin = if is_off config.public_mode then ok none else (do
    throw_if (not (is_on config.public_mode) || not (config.chain_id == 31373)) unsupported_config
    configured ← public_origin config.public_origin
    page ← public_origin origin
    throw_if (not (is_same page configured)) other_origin
    ok (some (configured ++ "/rpc", configured ++ "/api")))

  abbrev pub is_rpc_of : Rpc → String → Bool
  is_rpc_of (elsewhere s) origin = is_same s (origin ++ "/rpc")
  is_rpc_of _ origin = false

  -- the RPC URL of the network that the wallet is offered, in public mode
  unfoldable pub wallet_chain : Config → Result Error (Option String)
  unfolding assert_local_config public_origin
  wallet_chain config = do
    throw_if (not (config.chain_id == 31373)) unsupported_chain
    (if is_off config.public_mode then (assert_local_config config >>= λ _. ok none) else (do
      throw_if (not (is_on config.public_mode)) invalid_mode
      origin ← public_origin config.public_origin
      throw_if (not (is_rpc_of config.rpc_url origin)) other_rpc
      ok (some (origin ++ "/rpc"))))

-- ===== src/Wallet/Network.antt =====
-- public-transport.mjs, `selectWalletChain` and the wallet's guard, and the wallets of index.mjs. The log has each request with its
-- answer, the latest first.
use oncm.Prelude.{
  ℕ, Bool, false, ◌&&◌, ◌||◌, not, Option, none, some, List, [], ◌∷◌, ltb, ◌==◌, if◌then◌else◌,
  String, is_same, includes, Result, ok, throw, ◌>>=◌, ◌>>◌, throw_if,
}
use oncm.Prelude.Int.{ℤ, pos, negsuc}
use oncm.Wallet.Endpoints.{
  Error, rejected, unsupported_wallet, not_selected, no_wallet, wrong_network, other_deployment,
  read_only, not_restricted, wallet_failed, Config, Url, is_off, assert_local_config, wallet_chain,
}

pub data Request : Type 0 where
  ask_accounts ask_chain switch_chain add_chain : Request
  call_method : String → Request

-- The codes that the client tells apart: 4001, 4200 and -32601, 4902, and the others.
pub data Code : Type 0 where
  user_rejected unsupported_method unknown_chain : Code
  other_code : ℕ → Code

-- A failure also says whether its message is that of a wallet without such networks.
pub data Response : Type 0 where
  answered : ℕ → Response
  failed : Code → Bool → Response

abbrev pub Log : Type 0
Log = List (Request × Response)

-- What a failed request throws, where `requestNetwork` makes it.
abbrev pub network_error : Code → Bool → Error
network_error user_rejected m = rejected
network_error unsupported_method m = unsupported_wallet
network_error unknown_chain m = if m then unsupported_wallet else wallet_failed 4902
network_error (other_code n) m = if m then unsupported_wallet else wallet_failed n

-- What it throws elsewhere.
abbrev pub plain_error : Code → Error
plain_error user_rejected = rejected
plain_error unsupported_method = wallet_failed 4200
plain_error unknown_chain = wallet_failed 4902
plain_error (other_code n) = wallet_failed n

module _ (wallet : Log → Request → Response) where
  abbrev pub noted : Request → Log → Log
  noted r log = (r, wallet log r) ∷ log

  unfoldable pub verified : Log → Response → Log × Result Error (Unit {0})
  verified log (answered n) = (log, if n == 31373 then ok tt else throw not_selected)
  verified log (failed c m) = (log, throw (plain_error c))

  unfoldable pub verify_chain : Log → Log × Result Error (Unit {0})
  unfolding verified
  verify_chain log = verified (noted ask_chain log) (wallet log ask_chain)

  unfoldable pub after_last_switch : Log → Response → Log × Result Error (Unit {0})
  unfolding verify_chain
  after_last_switch log (answered n) = verify_chain log
  after_last_switch log (failed c m) = (log, throw (network_error c m))

  unfoldable pub after_add : Log → Response → Log × Result Error (Unit {0})
  unfolding after_last_switch
  after_add log (answered n) = after_last_switch (noted switch_chain log) (wallet log switch_chain)
  after_add log (failed c m) = (log, throw (network_error c m))

  -- A network that the wallet does not know is added, and switched to again.
  unfoldable pub after_switch : Log → Response → Log × Result Error (Unit {0})
  unfolding verify_chain after_add
  after_switch log (answered n) = verify_chain log
  after_switch log (failed unknown_chain false) =
      after_add (noted add_chain log) (wallet log add_chain)
  after_switch log (failed c m) = (log, throw (network_error c m))

  unfoldable pub after_ask : Log → Response → Log × Result Error (Unit {0})
  unfolding verify_chain after_switch
  after_ask log (failed c m) = (log, throw (plain_error c))
  after_ask log (answered n) =
      if n == 31373
      then verify_chain log
      else after_switch (noted switch_chain log) (wallet log switch_chain)

  unfoldable pub select_network : Log → Log × Result Error (Unit {0})
  unfolding after_ask
  select_network log = after_ask (noted ask_chain log) (wallet log ask_chain)

  unfoldable pub select_wallet_chain :
      (String → Option Url) → Config → Log → Log × Result Error (Unit {0})
  unfolding wallet_chain select_network
  select_wallet_chain parse config log = elim (wallet_chain parse config) [
    | throw e ↦ (log, throw e)
    | ok none ↦ (log, ok tt)
    | ok (some rpc) ↦ select_network log
  ]

unfoldable pub assert_public_writes : Config → Result Error (Unit {0})
assert_public_writes config =
    throw_if
      (not (is_off config.public_mode)
        && (not config.public_write_enabled || not config.wallet_transactions))
      read_only

abbrev pub signing_methods : List String
signing_methods =
    "eth_sendTransaction" ∷ "eth_sendRawTransaction" ∷ "eth_signTransaction" ∷ "eth_sign"
    ∷ "eth_signTypedData" ∷ "eth_signTypedData_v3" ∷ "eth_signTypedData_v4" ∷ []

-- `publicWalletProvider`: whether a request goes to the wallet
unfoldable pub guarded : Config → String → Result Error (Unit {0})
unfolding assert_public_writes
guarded config m =
    if is_off config.public_mode
    then ok tt
    else if includes signing_methods m
    then assert_public_writes config
    else ok tt

-- What is pinned for a contract of the deployment, and the hash of the code that is there, if there is any.
pub record Deployment : Type 0 where
  pub pinned : String → Option String
  pub code_hash : String → Option String

abbrev pub is_pinned : Deployment → String → Bool
is_pinned d key = elim (d.pinned key) [
  | none ↦ false
  | some p ↦ elim (d.code_hash key) [ none ↦ false | some h ↦ is_same p h ]
]

unfoldable pub verify_injected_deployment : Deployment → Config → Result Error (Unit {0})
verify_injected_deployment d config =
    if is_off config.public_mode
    then ok tt
    else if not (is_pinned d "StatementRegistry")
    then throw other_deployment
    else if not (is_pinned d "TrueToken")
    then throw other_deployment
    else ok tt

unfoldable pub after_select :
    Deployment → (Log → ℕ) → Config → Log × Result Error (Unit {0}) → Log × Result Error (Unit {0})
unfolding verify_injected_deployment
after_select d network config (log, throw e) = (log, throw e)
after_select d network config (log, ok _) =
    (log, if network log == 31373 then verify_injected_deployment d config else throw wrong_network)

unfoldable pub after_accounts :
    (Log → Request → Response)
    → (String → Option Url)
    → Deployment
    → (Log → ℕ)
    → Config
    → Log
    → Response
    → Log × Result Error (Unit {0})
unfolding after_select select_wallet_chain
after_accounts wallet parse d network config log (failed c m) = (log, throw (plain_error c))
after_accounts wallet parse d network config log (answered n) =
    after_select d network config (select_wallet_chain wallet parse config log)

-- `network` is what the provider says over the wallet after a log.
unfoldable pub injected_wallet :
    Option (Log → Request → Response)
    → (String → Option Url)
    → Deployment
    → (Log → ℕ)
    → Config
    → Log × Result Error (Unit {0})
unfolding after_accounts
injected_wallet none parse d network config = ([], throw no_wallet)
injected_wallet (some wallet) parse d network config =
    after_accounts wallet parse d network config (noted wallet ask_accounts [])
      (wallet [] ask_accounts)

-- `localWallet`: the number of the account; `none` is an index that is no integer
unfoldable pub local_wallet : ℕ → Config → Option ℤ → Result Error ℕ
unfolding assert_local_config
local_wallet network config none = assert_local_config config >>= λ _. throw not_restricted
local_wallet network config (some (negsuc n)) =
    assert_local_config config >>= λ _. throw not_restricted
local_wallet network config (some (pos n)) = do
  _ ← assert_local_config config
  throw_if (not (config.chain_id == 31373) || ltb 3 n) not_restricted
  throw_if (not (network == 31373)) wrong_network
  ok n

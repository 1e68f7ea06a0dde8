-- ===== src/Wallet/Examples.antt =====
-- Wallets that know the network, learn it, and whose user rejects it.
use oncm.Prelude.{
  ℕ, ◌≡◌, refl, true, false, Option, none, some, [], ◌∷◌, length, ltb, if◌then◌else◌, String, ok,
  throw,
}
use oncm.Prelude.Int.{pos}
use oncm.Wallet.Endpoints.{
  rejected, read_only, bad_offset, Config, Url, on, off, loopback, elsewhere, local_endpoints,
}
use oncm.Wallet.Network.{
  Request, ask_accounts, ask_chain, switch_chain, add_chain, user_rejected, unknown_chain, Response,
  answered, failed, Log, guarded, Deployment, is_pinned, injected_wallet, local_wallet,
}
use oncm.Wallet.Rejection.{Stops, injected_wallet-Stops}
use oncm.Wallet.Connected.{Selected, injected_wallet-Selected}

abbrev hosted : Config
hosted = record {
  public_mode = on;
  chain_id = 31373;
  public_origin = "https://vault.example";
  rpc_url = elsewhere "https://vault.example/rpc";
  local_port_offset = none;
  public_write_enabled = false;
  wallet_transactions = false;
}

abbrev parse : String → Option Url
parse s = some record {
  is_https = true;
  has_credentials = false;
  has_search_or_hash = false;
  is_root_path = true;
  origin = s;
}

abbrev deployment : Deployment
deployment = record { pinned = λ key. some "0xaa"; code_hash = λ key. some "0xaa" }

-- It knows the network once it was added.
abbrev learns : Log → Request → Response
learns log ask_accounts = answered 0
learns log ask_chain = if ltb (length log) 4 then answered 1 else answered 31373
learns log switch_chain = if ltb (length log) 3 then failed unknown_chain false else answered 0
learns log _ = answered 0

abbrev refuses : Log → Request → Response
refuses log switch_chain = failed user_rejected false
refuses log _ = answered 1

abbrev learned : Log
learned =
    (ask_chain, answered 31373)
    ∷ (switch_chain, answered 0)
    ∷ (add_chain, answered 0)
    ∷ (switch_chain, failed unknown_chain false)
    ∷ (ask_chain, answered 1)
    ∷ (ask_accounts, answered 0)
    ∷ []

learns_network :
    injected_wallet (some learns) parse deployment (λ log. 31373) hosted ≡ (learned, ok tt)
unfolding injected_wallet
learns_network = refl

rejects_switch : injected_wallet (some refuses) parse deployment (λ log. 31373) hosted ≡ (
  (switch_chain, failed user_rejected false)
      ∷ (ask_chain, answered 1)
      ∷ (ask_accounts, answered 1)
      ∷ [],
  throw rejected,
)
unfolding injected_wallet
rejects_switch = refl

signs_nothing : guarded hosted "eth_signTypedData_v4" ≡ throw read_only
unfolding guarded
signs_nothing = refl

reads_still : guarded hosted "eth_call" ≡ ok tt
unfolding guarded
reads_still = refl

shifted : local_endpoints "10" ≡ ok record { rpc_port = 9557; api_port = 4183; web_port = 5183 }
unfolding local_endpoints
shifted = refl

no_leading_zero : local_endpoints "010" ≡ throw bad_offset
unfolding local_endpoints
no_leading_zero = refl

third_account :
    local_wallet 31373 (record hosted { public_mode = off; rpc_url = loopback 9547 }) (some (pos 3))
    ≡ ok 3
unfolding local_wallet
third_account = refl

learns_ends : (injected_wallet (some learns) parse deployment (λ log. 31373) hosted).1 ≡ ok tt
unfolding injected_wallet
learns_ends = refl

injected_wallet-Stops_example :
    Stops (injected_wallet (some refuses) parse deployment (λ log. 31373) hosted)
injected_wallet-Stops_example = injected_wallet-Stops refuses parse deployment (λ log. 31373) hosted

injected_wallet-Selected_example :
    Selected (injected_wallet (some learns) parse deployment (λ log. 31373) hosted).0
    × (◌≡◌ {A = ℕ} 31373 31373)
    × (is_pinned deployment "StatementRegistry" ≡ true)
    × (is_pinned deployment "TrueToken" ≡ true)
injected_wallet-Selected_example =
    injected_wallet-Selected learns parse deployment (λ log. 31373) hosted refl learns_ends

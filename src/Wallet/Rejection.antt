-- ===== src/Wallet/Rejection.antt =====
-- public-transport.mjs: a wallet is asked no more once its user has rejected a request, and a connected wallet is on the network.
use oncm.Prelude.{
  ℕ, ◌≡◌, refl, inl, inr, Bool, true, false, Option, none, some, [], ◌∷◌, All, ◌==◌, if◌then◌else◌,
  String, Result, ok, throw, Bool-cases,
}
use oncm.Wallet.Endpoints.{Error, Config, Url, wallet_chain}
use oncm.Wallet.Network.{
  Request, ask_accounts, ask_chain, switch_chain, add_chain, user_rejected, unsupported_method,
  unknown_chain, other_code, Response, answered, failed, Log, noted, verified, verify_chain,
  after_last_switch, after_add, after_switch, after_ask, select_network, select_wallet_chain,
  Deployment, verify_injected_deployment, after_select, after_accounts, injected_wallet,
}

abbrev pub is_rejection : Response → Bool
is_rejection (failed user_rejected m) = true
is_rejection _ = false

-- The user has rejected none of the requests.
abbrev pub Willing : Log → Type 0
Willing log = All (λ (e : Request × Response). is_rejection e.1 ≡ false) log

abbrev pub rest_of : Log → Log
rest_of [] = []
rest_of (x ∷ xs) = xs

-- A rejection is the last request, and then there is no success.
abbrev pub Stops : Log × Result Error (Unit {0}) → Type 0
Stops (log, throw e) = Willing (rest_of log)
Stops (log, ok _) = Willing log

module _ (wallet : Log → Request → Response) where
  verified-Stops :
      (log : Log) (a : Response)
      → (is_rejection a ≡ false → Willing log)
      → Willing (rest_of log)
      → Stops (verified wallet log a)
  unfolding verified
  verified-Stops log (failed c m) h k = k
  verified-Stops log (answered n) h k = elim (Bool-cases (n == 31373)) [
    | inl e ↦ rw (e, verified) (h refl)
    | inr e ↦ rw (e, verified) k
  ]

  verify_chain-Stops : (log : Log) → Willing log → Stops (verify_chain wallet log)
  unfolding verify_chain
  verify_chain-Stops log w =
      verified-Stops (noted wallet ask_chain log) (wallet log ask_chain) (λ n. (n, w)) w

  after_last_switch-Stops :
      (log : Log) (a : Response)
      → (is_rejection a ≡ false → Willing log)
      → Willing (rest_of log)
      → Stops (after_last_switch wallet log a)
  unfolding after_last_switch
  after_last_switch-Stops log (failed c m) h k = k
  after_last_switch-Stops log (answered n) h k = verify_chain-Stops log (h refl)

  after_add-Stops :
      (log : Log) (a : Response)
      → (is_rejection a ≡ false → Willing log)
      → Willing (rest_of log)
      → Stops (after_add wallet log a)
  unfolding after_add
  after_add-Stops log (failed c m) h k = k
  after_add-Stops log (answered n) h k =
      after_last_switch-Stops (noted wallet switch_chain log) (wallet log switch_chain)
        (λ e. (e, h refl)) (h refl)

  after_switch-Stops :
      (log : Log) (a : Response)
      → (is_rejection a ≡ false → Willing log)
      → Willing (rest_of log)
      → Stops (after_switch wallet log a)
  unfolding after_switch
  after_switch-Stops log (answered n) h k = verify_chain-Stops log (h refl)
  after_switch-Stops log (failed unknown_chain false) h k =
      after_add-Stops (noted wallet add_chain log) (wallet log add_chain) (λ e. (e, h refl))
        (h refl)
  after_switch-Stops log (failed unknown_chain true) h k = k
  after_switch-Stops log (failed user_rejected m) h k = k
  after_switch-Stops log (failed unsupported_method m) h k = k
  after_switch-Stops log (failed (other_code n) m) h k = k

  after_ask-Stops :
      (log : Log) (a : Response)
      → (is_rejection a ≡ false → Willing log)
      → Willing (rest_of log)
      → Stops (after_ask wallet log a)
  unfolding after_ask
  after_ask-Stops log (failed c m) h k = k
  after_ask-Stops log (answered n) h k = elim (Bool-cases (n == 31373)) [
    | inl e ↦ rw (e, after_ask) (verify_chain-Stops log (h refl))
    | inr e ↦
        rw (e, after_ask)
          (after_switch-Stops (noted wallet switch_chain log) (wallet log switch_chain)
            (λ x. (x, h refl)) (h refl))
  ]

  select_network-Stops : (log : Log) → Willing log → Stops (select_network wallet log)
  unfolding select_network
  select_network-Stops log w =
      after_ask-Stops (noted wallet ask_chain log) (wallet log ask_chain) (λ n. (n, w)) w

  Willing-rest : (log : Log) → Willing log → Willing (rest_of log)
  Willing-rest [] w = tt
  Willing-rest (x ∷ xs) (_, w) = w

  select_wallet_chain-Stops :
      (parse : String → Option Url) (config : Config) (log : Log)
      → Willing log
      → Stops (select_wallet_chain wallet parse config log)
  unfolding select_wallet_chain
  select_wallet_chain-Stops parse config log w = by_chain (wallet_chain parse config) refl
    where
      by_chain :
          (r : Result Error (Option String))
          → wallet_chain parse config ≡ r
          → Stops (select_wallet_chain wallet parse config log)
      by_chain (throw e) h = rw (h, select_wallet_chain) (Willing-rest log w)
      by_chain (ok none) h = rw (h, select_wallet_chain) w
      by_chain (ok (some rpc)) h = rw (h, select_wallet_chain) (select_network-Stops log w)

  after_select-Stops :
      (d : Deployment) (network : Log → ℕ) (config : Config) (m : Log × Result Error (Unit {0}))
      → Stops m
      → Stops (after_select d network config m)
  unfolding after_select
  after_select-Stops d network config (log, throw e) h = h
  after_select-Stops d network config (log, ok _) h = either (
      if network log == 31373
      then verify_injected_deployment d config
      else throw Error.wrong_network)
    where
      either : (r : Result Error (Unit {0})) → Stops (log, r)
      either (throw e) = Willing-rest log h
      either (ok _) = h

  after_accounts-Stops :
      (parse : String → Option Url) (d : Deployment) (network : Log → ℕ) (config : Config)
      (log : Log) (a : Response)
      → (is_rejection a ≡ false → Willing log)
      → Willing (rest_of log)
      → Stops (after_accounts wallet parse d network config log a)
  unfolding after_accounts
  after_accounts-Stops parse d network config log (failed c m) h k = k
  after_accounts-Stops parse d network config log (answered n) h k =
      after_select-Stops d network config (select_wallet_chain wallet parse config log)
        (select_wallet_chain-Stops parse config log (h refl))

  -- However a wallet answers while it is connected, its user's rejection is the answer to the last request that it gets, and no connection
  -- follows.
  pub injected_wallet-Stops :
      (parse : String → Option Url) (d : Deployment) (network : Log → ℕ) (config : Config)
      → Stops (injected_wallet (some wallet) parse d network config)
  unfolding injected_wallet
  injected_wallet-Stops parse d network config =
      after_accounts-Stops parse d network config (noted wallet ask_accounts [])
        (wallet [] ask_accounts) (λ n. (n, tt)) tt

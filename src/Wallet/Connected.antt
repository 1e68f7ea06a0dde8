-- ===== src/Wallet/Connected.antt =====
-- index.mjs, `injectedWallet`: what a wallet that is connected has shown.
use oncm.Prelude.{
  ℕ, ◌≡◌, refl, ap, ◌∙◌, inl, inr, true, false, not, Option, none, some, [], ◌∷◌, ◌==◌, ==_iff,
  String, Result, ok, throw, throw_if, >>=-eq-ok, Bool-cases,
}
use oncm.Wallet.Endpoints.{
  Error, Config, Url, is_off, is_on, public_origin, is_rpc_of, wallet_chain,
}
use oncm.Wallet.Network.{
  Request, ask_accounts, ask_chain, switch_chain, add_chain, user_rejected, unsupported_method,
  unknown_chain, other_code, Response, answered, failed, Log, noted, verified, verify_chain,
  after_last_switch, after_add, after_switch, after_ask, select_network, select_wallet_chain,
  Deployment, is_pinned, verify_injected_deployment, after_select, after_accounts, injected_wallet,
}

-- The last request asked for the network, and its answer was the network of the deployment.
abbrev pub Selected : Log → Type 0
Selected log = (rest : Log) × (log ≡ (ask_chain, answered 31373) ∷ rest)

-- Where a part succeeds, the network is selected.
abbrev Selects : Log × Result Error (Unit {0}) → Type 0
Selects (log, throw e) = Unit
Selects (log, ok _) = Selected log

module _ (wallet : Log → Request → Response) where
  verified-Selects :
      (log : Log) (a : Response)
      → wallet log ask_chain ≡ a
      → Selects (verified wallet (noted wallet ask_chain log) a)
  unfolding verified
  verified-Selects log (failed c m) e = tt
  verified-Selects log (answered n) e = elim (Bool-cases (n == 31373)) [
    | inl same ↦
        rw (same, verified)
          (log, ap (λ a. (ask_chain, a) ∷ log) (e ∙ ap (λ k. answered k) ((==_iff n 31373).0 same)))
    | inr other ↦ rw (other, verified) tt
  ]

  verify_chain-Selects : (log : Log) → Selects (verify_chain wallet log)
  unfolding verify_chain
  verify_chain-Selects log = verified-Selects log (wallet log ask_chain) refl

  after_last_switch-Selects : (log : Log) (a : Response) → Selects (after_last_switch wallet log a)
  unfolding after_last_switch
  after_last_switch-Selects log (failed c m) = tt
  after_last_switch-Selects log (answered n) = verify_chain-Selects log

  after_add-Selects : (log : Log) (a : Response) → Selects (after_add wallet log a)
  unfolding after_add
  after_add-Selects log (failed c m) = tt
  after_add-Selects log (answered n) = after_last_switch-Selects _ (wallet log switch_chain)

  after_switch-Selects : (log : Log) (a : Response) → Selects (after_switch wallet log a)
  unfolding after_switch
  after_switch-Selects log (answered n) = verify_chain-Selects log
  after_switch-Selects log (failed unknown_chain false) = after_add-Selects _ (wallet log add_chain)
  after_switch-Selects log (failed unknown_chain true) = tt
  after_switch-Selects log (failed user_rejected m) = tt
  after_switch-Selects log (failed unsupported_method m) = tt
  after_switch-Selects log (failed (other_code n) m) = tt

  after_ask-Selects : (log : Log) (a : Response) → Selects (after_ask wallet log a)
  unfolding after_ask
  after_ask-Selects log (failed c m) = tt
  after_ask-Selects log (answered n) = elim (Bool-cases (n == 31373)) [
    | inl e ↦ rw (e, after_ask) (verify_chain-Selects log)
    | inr e ↦ rw (e, after_ask) (after_switch-Selects _ (wallet log switch_chain))
  ]

  select_wallet_chain-Selected :
      (parse : String → Option Url) (config : Config) (log : Log) (rpc : String)
      → wallet_chain parse config ≡ ok (some rpc)
      → Selects (select_wallet_chain wallet parse config log)
  unfolding select_wallet_chain select_network
  select_wallet_chain-Selected parse config log rpc h =
      rw (h, select_wallet_chain) (after_ask-Selects _ (wallet log ask_chain))

all_pinned :
    (d : Deployment) (config : Config)
    → verify_injected_deployment d config ≡ ok tt
    → is_off config.public_mode ≡ false
    → (is_pinned d "StatementRegistry" ≡ true) × (is_pinned d "TrueToken" ≡ true)
unfolding verify_injected_deployment
all_pinned d config h public = elim (Bool-cases (is_pinned d "StatementRegistry")) [
  | inr bad ↦ cc (rw (public, bad, verify_injected_deployment) at h)
  | inl registry ↦ elim (Bool-cases (is_pinned d "TrueToken")) [
    | inr bad ↦ cc (rw (public, registry, bad, verify_injected_deployment) at h)
    | inl token ↦ (registry, token)
  ]
]

after_select-ok :
    (d : Deployment) (network : Log → ℕ) (config : Config) (m : Log × Result Error (Unit {0}))
    → (after_select d network config m).1 ≡ ok tt
    → (m.1 ≡ ok tt)
      × ((after_select d network config m).0 ≡ m.0)
      × (network m.0 ≡ 31373)
      × (verify_injected_deployment d config ≡ ok tt)
unfolding after_select
after_select-ok d network config (log, throw e) h = cc
after_select-ok d network config (log, ok tt) h = elim (Bool-cases (network log == 31373)) [
  | inr bad ↦ cc (rw (bad, after_select) at h)
  | inl good ↦ (refl, refl, (==_iff (network log) 31373).0 good, rw (good, after_select) at h)
]

Selected-of : (m : Log × Result Error (Unit {0})) → Selects m → m.1 ≡ ok tt → Selected m.0
Selected-of (log, throw e) s h = cc
Selected-of (log, ok _) s h = s

never_none :
    (parse : String → Option Url) (config : Config)
    → is_off config.public_mode ≡ false
    → wallet_chain parse config ≡ ok none
    → ⊥
unfolding wallet_chain
never_none parse config public h =
    let (_, _, h1) =
      >>=-eq-ok (throw_if (not (config.chain_id == 31373)) Error.unsupported_chain) _ h in
    let (_, _, h2) =
      >>=-eq-ok (throw_if (not (is_on config.public_mode)) Error.invalid_mode) _
        (rw public at h1) in
    let (origin, _, h3) = >>=-eq-ok (public_origin parse config.public_origin) _ h2 in
    let (_, _, h4) =
      >>=-eq-ok (throw_if (not (is_rpc_of parse config.rpc_url origin)) Error.other_rpc) _ h3 in
    cc h4

chain_of_public :
    (parse : String → Option Url) (config : Config) (wallet : Log → Request → Response) (log : Log)
    → (select_wallet_chain wallet parse config log).1 ≡ ok tt
    → is_off config.public_mode ≡ false
    → (rpc : String) × (wallet_chain parse config ≡ ok (some rpc))
unfolding select_wallet_chain
chain_of_public parse config wallet log h public = by_chain (wallet_chain parse config) refl
  where
    by_chain :
        (r : Result Error (Option String))
        → wallet_chain parse config ≡ r
        → (rpc : String) × (wallet_chain parse config ≡ ok (some rpc))
    by_chain (throw e) k = cc (rw (k, select_wallet_chain) at h)
    by_chain (ok none) k = absurd (never_none parse config public k)
    by_chain (ok (some rpc)) k = (rpc, k)

accounts-Selected :
    (wallet : Log → Request → Response) (parse : String → Option Url) (d : Deployment)
    (network : Log → ℕ) (config : Config) (log : Log) (a : Response)
    → is_off config.public_mode ≡ false
    → (after_accounts wallet parse d network config log a).1 ≡ ok tt
    → Selected (after_accounts wallet parse d network config log a).0
      × (network (after_accounts wallet parse d network config log a).0 ≡ 31373)
      × (is_pinned d "StatementRegistry" ≡ true)
      × (is_pinned d "TrueToken" ≡ true)
unfolding after_accounts
accounts-Selected wallet parse d network config log (failed c m) public h = cc
accounts-Selected wallet parse d network config log (answered n) public h =
    let m = select_wallet_chain wallet parse config log in
    let (selected, same, on_network, verified_code) = after_select-ok d network config m h in
    let (rpc, is_rpc) = chain_of_public parse config wallet log selected public in
    let (registry, token) = all_pinned d config verified_code public in
    rw same (
      Selected-of m (select_wallet_chain-Selected wallet parse config log rpc is_rpc) selected,
      on_network,
      registry,
      token,
    )

-- A connection of a wallet in public mode leaves it on the network of the deployment, by its own last answer and by the provider's, and the
-- code of both contracts is the one that the deployment has pinned.
pub injected_wallet-Selected :
    (wallet : Log → Request → Response) (parse : String → Option Url) (d : Deployment)
    (network : Log → ℕ) (config : Config)
    → is_off config.public_mode ≡ false
    → (injected_wallet (some wallet) parse d network config).1 ≡ ok tt
    → Selected (injected_wallet (some wallet) parse d network config).0
      × (network (injected_wallet (some wallet) parse d network config).0 ≡ 31373)
      × (is_pinned d "StatementRegistry" ≡ true)
      × (is_pinned d "TrueToken" ≡ true)
unfolding injected_wallet
injected_wallet-Selected wallet parse d network config public h =
    accounts-Selected wallet parse d network config _ (wallet [] ask_accounts) public h

-- ===== src/Client/Chain.antt =====
-- index.mjs, `ensureChain`, `send`, `approve` and `permit`: how a transaction is sent. What the node and the wallet answer are
-- parameters; an address is its number.
use oncm.Prelude.{
  ℕ, ◌+◌, ◌-◌, ◌^◌, Bool, true, false, ◌||◌, Option, List, ◌∷◌, ltb, ◌==◌, if◌then◌else◌, ok, throw,
}
use oncm.Prelude.Acting
use oncm.Prelude.Acting.{done, some_or, ◌>>=◌, ◌>>◌}
use oncm.Market.Liquidity.{Kind}
use oncm.Market.Liquidity as Liquidity
use oncm.Market.SwapLimits as SwapLimits

pub data Error : Type 0 where
  wrong_network no_wallet reverted not_open bad_amounts already_initialized below_minimum
        not_positive changed not_ready no_revenue no_answer :
      Error
  bad_quote : Liquidity.Error → Error
  bad_swap : SwapLimits.Error → Error

-- The calls of contracts that are sent as transactions.
pub data Action : Type 0 where
  erc20_approve : ℕ → ℕ → ℕ → Action
  permit2_approve : ℕ → ℕ → ℕ → ℕ → Action
  position_split : ℕ → ℕ → Action
  position_merge : ℕ → ℕ → Action
  position_redeem : ℕ → ℕ → ℕ → Action
  router_initialize : ℕ → List ℕ → List ℕ → ℕ → Action
  router_add : ℕ → List ℕ → ℕ → Action
  router_remove : ℕ → ℕ → List ℕ → Action
  router_swap : ℕ → ℕ → ℕ → ℕ → ℕ → ℕ → Action
  registry_register : ℕ → ℕ → ℕ → ℕ → ℕ → Action
  registry_submit_proof : ℕ → ℕ → ℕ → Action
  registry_register_derived : ℕ → ℕ → ℕ → ℕ → ℕ → Action
  registry_resolve_derived : ℕ → Action
  coordinator_create : ℕ → ℕ → ℕ → ℕ → ℕ → Action
  allocation_collect : Bool → ℕ → Action
  allocation_distribute : ℕ → ℕ → Action
  warehouse_withdraw : ℕ → ℕ → ℕ → ℕ → Action

-- A transaction that was sent, with the moment at which the network was checked for it, and whether it was confirmed.
pub record Sent : Type 0 where
  pub at : ℕ
  pub action : Action
  pub confirmed : Bool

-- Each question to the node is a moment of its own. `sent` has the latest transaction first.
pub record Session : Type 0 where
  pub moment : ℕ
  pub sent : List Sent

-- What a statement says of itself, and how a call of `resolveDerived` that is not sent ends: by the name of its error, or by one that
-- no name is found for.
pub data Attempt : Type 0 where
  passes not_resolvable_yet already_resolved unknown_statement another_error : Attempt

pub record Derived : Type 0 where
  pub has_author : Bool
  pub outcome : ℕ
  pub kind : ℕ
  pub attempt : Attempt

-- How a transaction ends: the wallet does not send it, it is sent and `wait` throws, or it is confirmed.
pub data Receipt : Type 0 where
  refuses fails confirms : Receipt

-- What the wallet and the contracts answer, at a moment and after the transactions that were sent.
pub record Node : Type 0 where
  pub chain_id : ℕ → ℕ
  pub user : Session → Option ℕ
  pub receipt : Session → Action → Receipt
  pub allowance : Session → ℕ → ℕ → ℕ → ℕ
  pub permit2_allowance : Session → ℕ → ℕ → ℕ → ℕ × ℕ
  pub timestamp : Session → ℕ
  pub outcome_tokens : Session → ℕ → ℕ × ℕ
  pub statement_of_pool : Session → ℕ → ℕ
  pub outcome_of : Session → ℕ → ℕ
  pub pool_tokens : Session → ℕ → List ℕ
  pub total_supply : Session → ℕ → ℕ
  pub invariant : Session → ℕ → List ℕ → ℕ
  pub minimum_supply : Session → ℕ
  pub query_liquidity : Session → Kind → ℕ → ℕ → ℕ → Option (List ℕ)
  pub query_swap : Session → ℕ → ℕ → ℕ → ℕ → ℕ → Option ℕ
  pub derived : Session → ℕ → Derived
  pub is_current : Session → Bool
  pub claimable : Session → ℕ → ℕ → ℕ

-- The addresses of a deployment, and whether it has the managed policy.
pub record Config : Type 0 where
  pub true_token : ℕ
  pub permit2 : ℕ
  pub router : ℕ
  pub position_router : ℕ
  pub collects_all : Bool

abbrev pub Act : Type 0 → Type 0
Act A = Acting.Act Session Error A

abbrev pub tick : Session → Session
tick s = record { moment = s.moment + 1; sent = s.sent }

abbrev pub sent_after : ℕ → Action → Bool → Session → Session
sent_after t a b s = record {
  moment = s.moment + 1;
  sent = record { at = t; action = a; confirmed = b } ∷ s.sent;
}

unfoldable pub read : {A : Type 0} → (Session → A) → Act A
read f s = (tick s, ok (f s))

module _ (node : Node) (config : Config) where
  -- the moment of the check
  unfoldable pub ensure_chain : Act ℕ
  ensure_chain s =
      if node.chain_id s.moment == 31373
      then (tick s, ok s.moment)
      else (tick s, throw wrong_network)

  unfoldable pub transact : ℕ → Action → Act (Unit {0})
  transact t a s = elim (node.receipt s a) [
    | refuses ↦ (tick s, throw reverted)
    | fails ↦ (sent_after t a false s, throw reverted)
    | confirms ↦ (sent_after t a true s, ok tt)
  ]

  -- `send`, with the test that the function that is sent makes before its call
  unfoldable pub send_when : Act (Unit {0}) → Action → Act (Unit {0})
  unfolding ensure_chain transact
  send_when test a = do t ← ensure_chain; test; transact t a

  unfoldable pub send : Action → Act (Unit {0})
  unfolding send_when
  send a = send_when (done tt) a

  -- `write.getAddress()`
  unfoldable pub get_address : Act ℕ
  get_address = read node.user >>= some_or no_wallet

  unfoldable pub approve : ℕ → ℕ → ℕ → Act (Unit {0})
  unfolding send get_address
  approve token spender amount = do
    user ← get_address
    allowed ← read (λ s. node.allowance s user token spender)
    if ltb allowed amount then send (erc20_approve token spender amount) else done tt

  unfoldable pub permit : ℕ → ℕ → Act (Unit {0})
  unfolding approve send get_address
  permit token amount = do
    approve token config.permit2 amount
    user ← get_address
    allowed ← read (λ s. node.permit2_allowance s user token config.router)
    now ← read node.timestamp
    if ltb allowed.0 amount || ltb allowed.1 (now + 600)
        then send (permit2_approve token config.router (2 ^ 160 - 1) (now + 2592000))
        else done tt

-- ===== src/Client/Examples.antt =====
-- A wallet that joins a pool, swaps, and claims, and one on another network.
use oncm.Prelude.{
  ℕ, ◌-◌, ◌^◌, ◌≡◌, refl, true, false, none, some, List, [], ◌∷◌, leb, if◌then◌else◌, ok, throw,
  ◌*◌,
}
use oncm.Prelude.Int.{pos}
use oncm.Prelude.Acting.{◌>>=◌}
use oncm.Client.Chain.{
  wrong_network, not_ready, no_revenue, Action, erc20_approve, router_add, router_swap, Attempt,
  Receipt, Sent, Session, Node, Config, read,
}
use oncm.Client.Operations.{splits, joins, swaps, claims, resolves, SwapRequest, run}
use oncm.Client.Steps.{AllProper}
use oncm.Client.Allowed.{Allowed}
use oncm.Client.Safety.{run-AllProper}
use oncm.Client.Completion.{is_approval, run-Completes}
use oncm.Client.Views.{Reader, AssetFees, Snapshot, revenue_snapshot}
use oncm.Market.Revenue as Revenue
use oncm.Market.SwapLimits as SwapLimits
use oncm.Market.Liquidity as Liquidity

abbrev config : Config
config = record {
  true_token = 1;
  permit2 = 2;
  router = 3;
  position_router = 4;
  collects_all = true;
}

-- The node of one wallet, 9: nothing is approved, a pool of the tokens 1 and 5, and the network is changed at the moment 40.
abbrev node : Node
node = record {
  chain_id = λ t. if leb 40 t then 1 else 31373;
  user = λ s. some 9;
  receipt = λ s a. Receipt.confirms;
  allowance = λ s user token spender. 0;
  permit2_allowance = λ s user token router. (2 ^ 160 - 1, 10000);
  timestamp = λ s. 1000;
  outcome_tokens = λ s id. (5, 6);
  statement_of_pool = λ s pool. 77;
  outcome_of = λ s id. 0;
  pool_tokens = λ s pool. 1 ∷ 5 ∷ [];
  total_supply = λ s pool. 500;
  invariant = λ s pool amounts. 900;
  minimum_supply = λ s. 100;
  query_liquidity = λ s kind pool bpt user. some (200 ∷ 300 ∷ []);
  query_swap = λ s pool i o n user. some 50;
  derived = λ s id. record {
    has_author = true;
    outcome = 0;
    kind = 1;
    attempt = Attempt.not_resolvable_yet;
  };
  is_current = λ s. true;
  claimable = λ s user token. 0;
}

abbrev from : ℕ → Session
from t = record { moment = t; sent = [] }

abbrev actions : List Sent → List Action
actions [] = []
actions (x ∷ xs) = x.action ∷ actions xs

-- Each limit is the quoted amount with one percent more.
joined :
    actions (run node config (joins 8 100 (some (pos 100)) none) (from 0)).0.sent
    ≡ router_add 8 (202 ∷ 303 ∷ []) 100 ∷ erc20_approve 5 2 303 ∷ erc20_approve 1 2 202 ∷ []
unfolding run ◌>>=◌ read Liquidity.liquidity_limits Liquidity.validate_liquidity_quote
joined = refl

abbrev a_swap : SwapRequest
a_swap = record {
  pool = 8;
  token_in = 1;
  token_out = 5;
  swap = record { amount = pos 60; slippage_bps = some (pos 200); limits = none };
}

swapped :
    actions (run node config (swaps a_swap) (from 0)).0.sent
    ≡ router_swap 8 1 5 60 49 1600 ∷ erc20_approve 1 2 60 ∷ []
unfolding run ◌>>=◌ read SwapLimits.positive_uint SwapLimits.fix_limits
swapped = refl

elsewhere :
    run node config (swaps a_swap) (from 40)
    ≡ (record { moment = 41; sent = [] }, throw wrong_network)
unfolding run ◌>>=◌ read
elsewhere = refl

-- The network changes after the approvals: the call is not sent.
changed_between : (run node config (splits 77 10) (from 37)).1 ≡ throw wrong_network
unfolding run ◌>>=◌ read
changed_between = refl

nothing_to_claim : (run node config (claims 5) (from 0)).1 ≡ throw no_revenue
unfolding run ◌>>=◌ read
nothing_to_claim = refl

still_pending : (run node config (resolves 3) (from 0)).1 ≡ throw not_ready
unfolding run ◌>>=◌ read
still_pending = refl

run-AllProper_example :
    AllProper node config
      (Allowed node config (swaps a_swap))
      (run node config (swaps a_swap) (from 0)).0
run-AllProper_example = run-AllProper node config (swaps a_swap) 0

swap_ends : (run node config (swaps a_swap) (from 0)).1 ≡ ok tt
unfolding run ◌>>=◌ read SwapLimits.positive_uint SwapLimits.fix_limits
swap_ends = refl

run-Completes_example :
    (x : Sent) × (rest : List Sent) × ((run node config (swaps a_swap) (from 0)).0.sent ≡ x ∷ rest)
    × (is_approval x.action ≡ false)
    × (x.confirmed ≡ true)
    × (node.chain_id x.at ≡ 31373)
    × Allowed node config (swaps a_swap) x.action
run-Completes_example = run-Completes node config (swaps a_swap) 0 swap_ends

-- One statement with its two tokens and one pool, where a fee of 1000 is pending.
abbrev reader : Reader
reader = record {
  statement_of = λ id. record {
    id = id;
    goal_hash = 1;
    profile_id = 2;
    condition_id = 3;
    dependency = 0;
    deadline = 0;
    resolved_at = 0;
    kind = 4;
    expected = 0;
    outcome = 0;
    author = 9;
    yes_token = 5;
    no_token = 6;
    title = 7;
    manifest = 8;
    operation = none;
  };
  statement_operator = λ id. 44;
  operation_params = λ id. 45;
  statement_count = 1;
  statement_ids = λ i. 77;
  pool_count = 1;
  pool_of = λ i. record {
    address = 8;
    statement_id = 77;
    side = 0;
    outcome_weight = 1;
    creator = 9;
    hook = 0;
    tokens = [];
    balances = [];
    total_supply = 0;
    initialized = false;
  };
  hook_of = λ id. 12;
  pool_tokens = λ p. 1 ∷ 5 ∷ [];
  pool_balances = λ p. 100 ∷ 50 ∷ [];
  total_supply = λ p. 10;
  balance_of = λ t who. 3;
  rates = λ p. record {
    protocol_swap = 10 ^ 17;
    protocol_yield = 0;
    creator_swap = 3 * 10 ^ 17;
    creator_yield = 0;
    aggregate_swap = 37 * 10 ^ 16;
    aggregate_yield = 0;
  };
  swap_fees = λ p t. 1000;
  yield_fees = λ p t. 20;
  creator_held = λ p i. 4;
  protocol_held = λ p i. 5;
  epoch = 1;
  split_of = λ e. 13;
  warehouse_balance = λ who t. 6;
}

abbrev fees_of : ℕ → AssetFees
fees_of t = record {
  token = t;
  aggregate_swap = 1000;
  aggregate_yield = 20;
  pending_creator = 729;
  controller_creator = 4;
  pending_protocol = 291;
  controller_protocol = 5;
}

abbrev the_snapshot : Snapshot
the_snapshot = record {
  account = 9;
  active_epoch = 1;
  pools =
      record {
        pool = 8;
        assets = fees_of 1 ∷ fees_of 5 ∷ [];
        swap_rates = (10 ^ 17, 3 * 10 ^ 17, 37 * 10 ^ 16);
      }
      ∷ [];
  epochs = record { epoch = 1; split = 13; undistributed = (1, 3) ∷ (5, 3) ∷ (6, 3) ∷ [] } ∷ [];
  assets =
      record { token = 1; forwarded = 3; claimable = 6 }
      ∷ record { token = 5; forwarded = 3; claimable = 6 }
      ∷ record { token = 6; forwarded = 3; claimable = 6 }
      ∷ [];
}

snapshot_taken : revenue_snapshot reader 1 14 9 ≡ ok the_snapshot
unfolding revenue_snapshot Revenue.creator_from_aggregate Revenue.protocol_from_aggregate
    Revenue.protocol_part Revenue.ceil_div
snapshot_taken = refl

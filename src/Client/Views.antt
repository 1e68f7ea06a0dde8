-- ===== src/Client/Views.antt =====
-- index.mjs: the views of statements, pools, balances and revenue. What each contract answers is a parameter; an address, a hash and a text
-- are numbers, and the address zero is 0.
use oncm.Prelude.{
  ℕ, zero, suc, ◌+◌, Bool, true, false, Option, none, some, List, [], ◌∷◌, ◌++◌, map, find, ltb,
  ◌==◌, if◌then◌else◌, Result, ok, ◌>>=◌,
}
use oncm.Prelude.Int.{pos}
use oncm.Market.Revenue.{creator_from_aggregate, protocol_from_aggregate}
use oncm.Market.Revenue as Revenue
use oncm.Market.Capital.{Inventory, settlement_inventory}
use oncm.Market.Capital as Capital

-- `operation` has the operator of a statement of kind 4, and its parameters.
pub record Statement : Type 0 where
  pub id : ℕ
  pub goal_hash : ℕ
  pub profile_id : ℕ
  pub condition_id : ℕ
  pub dependency : ℕ
  pub deadline : ℕ
  pub resolved_at : ℕ
  pub kind : ℕ
  pub expected : ℕ
  pub outcome : ℕ
  pub author : ℕ
  pub yes_token : ℕ
  pub no_token : ℕ
  pub title : ℕ
  pub manifest : ℕ
  pub operation : Option (ℕ × ℕ)

pub record Pool : Type 0 where
  pub address : ℕ
  pub statement_id : ℕ
  pub side : ℕ
  pub outcome_weight : ℕ
  pub creator : ℕ
  pub hook : ℕ
  pub tokens : List ℕ
  pub balances : List ℕ
  pub total_supply : ℕ
  pub initialized : Bool

-- The rates of a pool: the protocol's, the creator's and the two together, for swaps and for yield.
pub record Rates : Type 0 where
  pub protocol_swap : ℕ
  pub protocol_yield : ℕ
  pub creator_swap : ℕ
  pub creator_yield : ℕ
  pub aggregate_swap : ℕ
  pub aggregate_yield : ℕ

-- The answers of the contracts at one block.
pub record Reader : Type 0 where
  pub statement_of : ℕ → Statement
  pub statement_operator : ℕ → ℕ
  pub operation_params : ℕ → ℕ
  pub statement_count : ℕ
  pub statement_ids : ℕ → ℕ
  pub pool_count : ℕ
  pub pool_of : ℕ → Pool
  pub hook_of : ℕ → ℕ
  pub pool_tokens : ℕ → List ℕ
  pub pool_balances : ℕ → List ℕ
  pub total_supply : ℕ → ℕ
  pub balance_of : ℕ → ℕ → ℕ
  pub rates : ℕ → Rates
  pub swap_fees : ℕ → ℕ → ℕ
  pub yield_fees : ℕ → ℕ → ℕ
  pub creator_held : ℕ → ℕ → ℕ
  pub protocol_held : ℕ → ℕ → ℕ
  pub epoch : ℕ
  pub split_of : ℕ → ℕ
  pub warehouse_balance : ℕ → ℕ → ℕ

-- `Array.from({ length: n }, (_, i) => f(i))`, from an index on
abbrev pub tabulate : {A : Type 0} → (ℕ → A) → ℕ → ℕ → List A
tabulate f i zero = []
tabulate f i (suc n) = f i ∷ tabulate f (i + 1) n

abbrev pub is_member : ℕ → List ℕ → Bool
is_member x [] = false
is_member x (y ∷ ys) = if y == x then true else is_member x ys

-- `[...new Set(xs)]`, after the elements that were seen
abbrev pub distinct : List ℕ → List ℕ → List ℕ
distinct seen [] = []
distinct seen (x ∷ xs) = if is_member x seen then distinct seen xs else x ∷ distinct (x ∷ seen) xs

abbrev pub outcome_tokens : List Statement → List ℕ
outcome_tokens [] = []
outcome_tokens (s ∷ ss) = s.yes_token ∷ s.no_token ∷ outcome_tokens ss

pub record AssetFees : Type 0 where
  pub token : ℕ
  pub aggregate_swap : ℕ
  pub aggregate_yield : ℕ
  pub pending_creator : ℕ
  pub controller_creator : ℕ
  pub pending_protocol : ℕ
  pub controller_protocol : ℕ

pub record PoolFees : Type 0 where
  pub pool : ℕ
  pub assets : List AssetFees
  pub swap_rates : ℕ × ℕ × ℕ

pub record Epoch : Type 0 where
  pub epoch : ℕ
  pub split : ℕ
  pub undistributed : List (ℕ × ℕ)

pub record Asset : Type 0 where
  pub token : ℕ
  pub forwarded : ℕ
  pub claimable : ℕ

pub record Snapshot : Type 0 where
  pub account : ℕ
  pub active_epoch : ℕ
  pub pools : List PoolFees
  pub epochs : List Epoch
  pub assets : List Asset

module _ (r : Reader) (true_token allocation : ℕ) where
  unfoldable pub statement : ℕ → Statement
  statement id =
      let s = r.statement_of id in
      record s {
        id = id;
        operation =
            if s.kind == 4 then some (r.statement_operator id, r.operation_params id) else none;
      }

  unfoldable pub statements : List Statement
  unfolding statement
  statements = tabulate (λ i. statement (r.statement_ids i)) 0 r.statement_count

  unfoldable pub pool_view : ℕ → Pool
  pool_view i =
      let p = r.pool_of i in
      record p {
        hook = r.hook_of p.statement_id;
        tokens = r.pool_tokens p.address;
        balances = r.pool_balances p.address;
        total_supply = r.total_supply p.address;
        initialized = ltb 0 (r.total_supply p.address);
      }

  unfoldable pub pools : List Pool
  unfolding pool_view
  pools = tabulate pool_view 0 r.pool_count

  unfoldable pub balances : ℕ → List Statement → List Pool → List (ℕ × ℕ)
  balances account ss ps =
      map (λ t. (t, r.balance_of t account))
        (distinct [] (true_token ∷ outcome_tokens ss ++ map (λ (p : Pool). p.address) ps))

  -- the fees of one token of a pool, at its place in the pool
  unfoldable pub asset_fees : ℕ → ℕ → ℕ → Result Revenue.Error AssetFees
  asset_fees pool i token = do
    let rates = r.rates pool
    let swap = r.swap_fees pool token
    let yield_fee = r.yield_fees pool token
    creator_swap ←
        creator_from_aggregate swap rates.protocol_swap rates.creator_swap rates.aggregate_swap
    creator_yield ←
        creator_from_aggregate yield_fee rates.protocol_yield rates.creator_yield
          rates.aggregate_yield
    protocol_swap ←
        protocol_from_aggregate swap rates.protocol_swap rates.creator_swap rates.aggregate_swap
    protocol_yield ←
        protocol_from_aggregate yield_fee rates.protocol_yield rates.creator_yield
          rates.aggregate_yield
    ok (record {
      token = token;
      aggregate_swap = swap;
      aggregate_yield = yield_fee;
      pending_creator = creator_swap + creator_yield;
      controller_creator = r.creator_held pool i;
      pending_protocol = protocol_swap + protocol_yield;
      controller_protocol = r.protocol_held pool i;
    })

  unfoldable pub assets_from : ℕ → ℕ → List ℕ → Result Revenue.Error (List AssetFees)
  unfolding asset_fees
  assets_from pool i [] = ok []
  assets_from pool i (t ∷ ts) = do
    fees ← asset_fees pool i t
    rest ← assets_from pool (i + 1) ts
    ok (fees ∷ rest)

  unfoldable pub pool_fees : List Pool → Result Revenue.Error (List PoolFees)
  unfolding assets_from
  pool_fees [] = ok []
  pool_fees (p ∷ ps) = do
    assets ← assets_from p.address 0 (r.pool_tokens p.address)
    rest ← pool_fees ps
    ok (
        record {
          pool = p.address;
          assets = assets;
          swap_rates = (
            (r.rates p.address).protocol_swap,
            (r.rates p.address).creator_swap,
            (r.rates p.address).aggregate_swap,
          );
        }
        ∷ rest)

  abbrev pub all_tokens : List ℕ
  all_tokens = distinct [] (true_token ∷ outcome_tokens statements)

  abbrev pub epoch_of : ℕ → Epoch
  epoch_of i = record {
    epoch = i + 1;
    split = r.split_of (i + 1);
    undistributed = map (λ t. (t, r.balance_of t (r.split_of (i + 1)))) all_tokens;
  }

  abbrev pub asset_of : ℕ → ℕ → Asset
  asset_of account t = record {
    token = t;
    forwarded = r.balance_of t allocation;
    claimable = if account == 0 then 0 else r.warehouse_balance account t;
  }

  unfoldable pub revenue_snapshot : ℕ → Result Revenue.Error Snapshot
  unfolding statements pools pool_fees
  revenue_snapshot account = do
    fees ← pool_fees pools
    ok (record {
      account = account;
      active_epoch = r.epoch;
      pools = fees;
      epochs = tabulate epoch_of 0 r.epoch;
      assets = map (asset_of account) all_tokens;
    })

  -- `settlementStress`, with the pool found; `block` answers at the block that the view is of
  unfoldable pub settlement_stress : Reader → ℕ → ℕ → Option (Result Capital.Error Inventory)
  unfolding pools
  settlement_stress block pool account = elim (find (λ (p : Pool). p.address == pool) pools) [
    | none ↦ none
    | some p ↦ some (
        settlement_inventory (record {
          tokens = block.pool_tokens pool;
          balances = block.pool_balances pool;
          total_supply = pos (block.total_supply pool);
          bpt_balance = pos (block.balance_of pool account);
          collateral = true_token;
          side = p.side;
        }))
  ]

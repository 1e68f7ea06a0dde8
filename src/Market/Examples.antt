-- ===== src/Market/Examples.antt =====
-- implementations/vault/sdk: the market arithmetic at concrete numbers.
use oncm.Prelude.{ℕ, ◌+◌, ◌*◌, ◌^◌, ◌≤◌, ◌<◌, ◌≡◌, refl, true, none, some, [], ◌∷◌, ◌++◌, ok, throw}
use oncm.Prelude.Int.{pos}
use oncm.Market.SwapLimits
use oncm.Market.Liquidity
use oncm.Market.Capital
use oncm.Market.Revenue

program : Unit {0}
unfolding SwapLimits.execute_bounded_swap SwapLimits.quoted_swap_limits Liquidity.liquidity_limits
    Liquidity.validate_liquidity_quote Capital.settlement_inventory Revenue.creator_from_aggregate
    Revenue.protocol_part Revenue.ceil_div
program = tt

abbrev world : SwapLimits.World
world = record { now = pos 1000; quote = pos 995; approves = true }

abbrev swap : SwapLimits.Swap
swap = record { amount = pos 70; slippage_bps = some (pos 50); limits = none }

abbrev order : SwapLimits.Order
order = record { amount = 70; limits = record { minimum_amount_out = 990; deadline = 1600 } }

swap_runs : (SwapLimits.execute_bounded_swap world swap).1 ≡ ok order
unfolding program
swap_runs = refl

execute_bounded_swap-ok_example :
    ((SwapLimits.execute_bounded_swap world swap).0
      ≡ SwapLimits.asks none ++ SwapLimits.approved 70 ∷ SwapLimits.executed order ∷ [])
    × (pos 70 ≡ pos 70)
    × (0 < 70)
    × ((t : ℕ) × (pos 1000 ≡ pos t) × (t < 1600))
    × SwapLimits.Bound world swap none order.limits
execute_bounded_swap-ok_example = SwapLimits.execute_bounded_swap-ok world swap order swap_runs

abbrev late : SwapLimits.Swap
late = record swap { limits = some (pos 1, pos 1000) }

late_expires : (SwapLimits.execute_bounded_swap world late).1 ≡ throw SwapLimits.quote_expired
unfolding program
late_expires = refl

join_limits :
    Liquidity.liquidity_limits (pos 1001 ∷ pos 0 ∷ []) (some (pos 30)) Liquidity.join
    ≡ ok (1005 ∷ 0 ∷ [])
unfolding program
join_limits = refl

liquidity_limits-AreLimits_example :
    (b : ℕ) × (some (pos 30) ≡ some (pos b))
    × (b ≤ 10000)
    × Liquidity.AreLimits Liquidity.join b (pos 1001 ∷ pos 0 ∷ []) (1005 ∷ 0 ∷ [])
liquidity_limits-AreLimits_example =
    Liquidity.liquidity_limits-AreLimits (pos 1001 ∷ pos 0 ∷ []) (some (pos 30)) Liquidity.join
      (1005 ∷ 0 ∷ []) join_limits

abbrev quote : Liquidity.Quote
quote = record {
  kind = Liquidity.join;
  pool = 8;
  account = 5;
  tokens = 1 ∷ 2 ∷ [];
  amounts = pos 3 ∷ pos 4 ∷ [];
  minimum_bpt = pos 0;
  bpt = pos 9;
  limits = pos 4 ∷ pos 5 ∷ [];
}

abbrev operation : Liquidity.Operation
operation = record {
  kind = Liquidity.join;
  pool = 8;
  account = 5;
  tokens = 1 ∷ 2 ∷ [];
  amounts = [];
  bpt = pos 9;
}

quote_passes : Liquidity.validate_liquidity_quote (some quote) operation ≡ ok quote
unfolding program
quote_passes = refl

abbrev pool : Capital.Pool
pool = record {
  tokens = 4 ∷ 6 ∷ [];
  balances = 100 ∷ 51 ∷ [];
  total_supply = pos 10;
  bpt_balance = pos 3;
  collateral = 6;
  side = 0;
}

abbrev inventory : ℕ → ℕ → ℕ → Capital.Inventory
inventory owned base outcome = record {
  bpt_balance = owned;
  total_supply = 10;
  base_inventory = base;
  outcome_inventory = outcome;
  true_payout = base + outcome;
  false_payout = base + 0;
}

holds_3 : Capital.settlement_inventory (Capital.held_by pool 3) ≡ ok (inventory 3 15 30)
unfolding program
holds_3 = refl

holds_5 : Capital.settlement_inventory (Capital.held_by pool 5) ≡ ok (inventory 5 25 50)
unfolding program
holds_5 = refl

holds_8 : Capital.settlement_inventory (Capital.held_by pool (3 + 5)) ≡ ok (inventory 8 40 80)
unfolding program
holds_8 = refl

creator_part : Revenue.creator_from_aggregate 1000 (10 ^ 17) (3 * 10 ^ 17) (37 * 10 ^ 16) ≡ ok 729
unfolding program
creator_part = refl

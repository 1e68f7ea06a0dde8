-- ===== src/Exchange/Trades.antt =====
-- index.mjs: trades, liquidity and arbitrage of `ExchangeSDK`. An amount is a number, the slippage and a result that may be negative
-- are integers.
use oncm.Prelude.{
  ℕ, zero, suc, ◌+◌, ◌-◌, ◌*◌, ◌/◌, Bool, true, false, Option, none, some, String, [], ◌∷◌, leb,
  get_elem?, ◌==◌, if◌then◌else◌,
}
use oncm.Prelude.Int.{ℤ, pos, negsuc}
use oncm.Prelude.Acting.{done, some_or, ◌>>=◌, ◌>>◌}
use oncm.Exchange.Chain.{
  no_answer, no_pair, no_block, router_split, router_merge, router_redeem, v2_swap, v2_add,
  v2_remove, arbitrage_execute, named, Act, Call, Node, Config, read, guard, tx, tx_plain,
  get_address, approve, with_gas, v2_send, deadline,
}
use oncm.Exchange.Markets.{Market, outcome_token_of}

-- a - b
unfoldable pub minus : ℕ → ℕ → ℤ
minus a b = if leb b a then pos (a - b) else negsuc (b - a - 1)

-- -n
abbrev pub negated : ℕ → ℤ
negated zero = pos 0
negated (suc n) = negsuc n

-- `(amount * (10000n - slippage)) / 10000n`, whose division drops what is behind the point
abbrev pub kept_part : ℕ → ℤ → ℤ
kept_part amount (pos k) = pos (amount * k / 10000)
kept_part amount (negsuc k) = negated (amount * (k + 1) / 10000)

-- 10000 - slippage
abbrev pub part_kept : ℤ → ℤ
part_kept (pos n) = minus 10000 n
part_kept (negsuc n) = pos (10000 + n + 1)

unfoldable pub minimum : ℕ → ℤ → ℤ
unfolding minus
minimum amount slippage = kept_part amount (part_kept slippage)

-- 100 where none is given
abbrev pub slippage_or : Option ℤ → ℤ
slippage_or none = pos 100
slippage_or (some s) = s

pub record ArbitrageQuote : Type 0 where
  pub amount : ℕ
  pub yes_t : ℕ
  pub no_t : ℕ
  pub output : ℕ
  pub profit : ℤ
  pub block : ℕ

-- from T to the outcome, or back
abbrev pub path_of : Config → Market → ℕ → Bool → ℕ × ℕ
path_of config m side true = (config.token, outcome_token_of m side)
path_of config m side false = (outcome_token_of m side, config.token)

abbrev pub trade_name : ℕ → Bool → String
trade_name side true = if side == 0 then "Buy YES" else "Buy NO"
trade_name side false = if side == 0 then "Sell YES" else "Sell NO"

module _ (node : Node) (config : Config) where
  unfoldable pub split : Market → ℕ → Act (Unit {0})
  unfolding guard approve tx_plain
  split m amount = do
    _ ← guard node config
    approve node config config.token config.router amount
    tx_plain node config "Split T into YES + NO"
        (router_split config.token m.statement.market amount)

  unfoldable pub merge : Market → ℕ → Act (Unit {0})
  unfolding approve tx_plain
  merge m amount = do
    approve node config m.yes_token config.router amount
    approve node config m.no_token config.router amount
    tx_plain node config "Merge full set into T"
        (router_merge config.token m.statement.market amount)

  unfoldable pub redeem : Market → ℕ → ℕ → Act (Unit {0})
  unfolding approve tx_plain
  redeem m side amount = do
    approve node config (outcome_token_of m side) config.router amount
    tx_plain node config "Redeem outcome for T"
        (router_redeem config.token m.statement.market (side ∷ []) (amount ∷ []))

  unfoldable pub quote : Market → ℕ → Bool → ℕ → Act ℕ
  quote m side buy amount = do
    answer ← read (λ s. node.quote_out s amount (path_of config m side buy))
    some_or no_answer answer

  unfoldable pub swap_call : ℕ → ℕ → ℕ × ℕ → Act Call
  unfolding get_address deadline v2_send
  swap_call amount least path = do
    to ← get_address node config
    until ← deadline node config
    v2_send node config (v2_swap amount least path to until)

  unfoldable pub trade : Market → ℕ → Bool → ℕ → ℕ → Act (Unit {0})
  unfolding approve swap_call tx
  trade m side buy amount min_output = do
    let path = path_of config m side buy
    approve node config path.0 config.v2_router amount
    tx node config (named (trade_name side buy)) (swap_call amount min_output path)

  unfoldable pub add_call : ℕ → ℕ → ℕ → ℤ → Act Call
  unfolding get_address deadline v2_send
  add_call token t_amount outcome_amount slippage = do
    to ← get_address node config
    until ← deadline node config
    v2_send node config (
        v2_add config.token token t_amount outcome_amount (minimum t_amount slippage)
          (minimum outcome_amount slippage) to until)

  unfoldable pub add_liquidity : Market → ℕ → ℕ → ℕ → Option ℤ → Act (Unit {0})
  unfolding approve add_call tx
  add_liquidity m side t_amount outcome_amount slippage = do
    let token = outcome_token_of m side
    approve node config token config.v2_router outcome_amount
    approve node config config.token config.v2_router t_amount
    tx node config (named "Add liquidity")
        (add_call token t_amount outcome_amount (slippage_or slippage))

  unfoldable pub remove_call : ℕ → ℕ → ℕ → ℕ → Act Call
  unfolding get_address deadline v2_send
  remove_call token amount min_t min_outcome = do
    to ← get_address node config
    until ← deadline node config
    v2_send node config (v2_remove config.token token amount min_t min_outcome to until)

  unfoldable pub remove_liquidity : Market → ℕ → ℕ → ℕ → ℕ → Act (Unit {0})
  unfolding approve remove_call tx
  remove_liquidity m side amount min_t min_outcome = do
    pair ← some_or no_pair (get_elem? m.pairs side)
    approve node config pair config.v2_router amount
    tx node config (named "Remove liquidity")
        (remove_call (outcome_token_of m side) amount min_t min_outcome)

  unfoldable pub quote_arbitrage : Market → ℕ → Act ArbitrageQuote
  unfolding quote minus
  quote_arbitrage m amount = do
    yes_t ← quote m 0 false amount
    no_t ← quote m 1 false amount
    block ← read node.block_number
    number ← some_or no_block block
    done (record {
      amount = amount;
      yes_t = yes_t;
      no_t = no_t;
      output = yes_t + no_t;
      profit = minus (yes_t + no_t) amount;
      block = number;
    })

  unfoldable pub arbitrage_call : ℕ → ℕ → ℤ → Act Call
  unfolding deadline with_gas
  arbitrage_call id amount min_profit = do
    until ← deadline node config
    with_gas node config 30000 (arbitrage_execute id amount min_profit until)

  unfoldable pub arbitrage : Market → ℕ → ℤ → Act (Unit {0})
  unfolding approve arbitrage_call tx
  arbitrage m amount min_profit = do
    approve node config config.token config.arbitrage amount
    tx node config (named "Atomic full-set arbitrage") (arbitrage_call m.id amount min_profit)

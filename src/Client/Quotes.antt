-- ===== src/Client/Quotes.antt =====
-- index.mjs, `quoteLiquidity`, and sdk/derived-readiness.mjs: what is read before a transaction. All that a quote reads is of one block.
use oncm.Prelude.{
  ℕ, ◌-◌, ◌&&◌, not, Option, none, some, List, [], ◌∷◌, map, length, any, ltb, ◌==◌, if◌then◌else◌,
  Result, ok, throw,
}
use oncm.Prelude.Int.{ℤ, pos, pos_part}
use oncm.Market.Liquidity.{Kind, exit, initialize, Quote, liquidity_limits, is_positive}
use oncm.Market.Liquidity as Liquidity
use oncm.Prelude.Acting.{done, fail, ◌>>=◌, ◌>>◌, check, some_or}
use oncm.Client.Chain.{
  not_open, bad_amounts, already_initialized, below_minimum, not_positive, no_answer, bad_quote,
  Session, Node, Config, Act, read, ensure_chain, Attempt, Derived, passes, not_resolvable_yet,
  already_resolved, unknown_statement, another_error,
}

-- What a calculation on a quote throws, the operation throws.
unfoldable pub quoted : {A : Type 0} → Result Liquidity.Error A → Act A
quoted (throw e) = fail (bad_quote e)
quoted (ok a) = done a

abbrev pub first_of : List ℕ → ℕ
first_of [] = 0
first_of (x ∷ xs) = x

-- the statuses of `readDerivedReadiness`
pub data Readiness : Type 0 where
  ready unknown resolved base pending : Readiness

unfoldable pub after_attempt : Attempt → Act Readiness
after_attempt passes = done ready
after_attempt not_resolvable_yet = done pending
after_attempt already_resolved = done resolved
after_attempt unknown_statement = done unknown
after_attempt another_error = fail no_answer

unfoldable pub readiness_of : Derived → Act Readiness
unfolding after_attempt
readiness_of d =
    if not d.has_author
    then done unknown
    else if not (d.outcome == 0)
    then done resolved
    else if d.kind == 0
    then done base
    else after_attempt d.attempt

module _ (node : Node) (config : Config) where
  -- `write.getAddress ? await write.getAddress() : ZeroAddress`
  abbrev pub account_of : Session → ℕ
  account_of s = elim (node.user s) [ none ↦ 0 | some user ↦ user ]

  unfoldable pub quote_initialize : ℕ → List ℤ → Option ℤ → Act Quote
  unfolding quoted
  quote_initialize pool amounts slippage = do
    account ← read account_of
    block ← read (λ s. s)
    let tokens = node.pool_tokens block pool
    check
        (not (node.statement_of_pool block pool == 0)
          && node.outcome_of block (node.statement_of_pool block pool) == 0)
        not_open
    check (length amounts == length tokens && not (any (λ a. not (is_positive a)) amounts))
        bad_amounts
    check (node.total_supply block pool == 0) already_initialized
    let whole = node.invariant block pool (map pos_part amounts)
    check (ltb (node.minimum_supply block) whole) below_minimum
    least ← quoted (liquidity_limits (pos (whole - node.minimum_supply block) ∷ []) slippage exit)
    done record {
      kind = initialize;
      pool = pool;
      account = account;
      tokens = tokens;
      amounts = amounts;
      minimum_bpt = pos (first_of least);
      bpt = pos (whole - node.minimum_supply block);
      limits = amounts;
    }

  unfoldable pub quote_proportional : Kind → ℕ → ℤ → Option ℤ → Act Quote
  unfolding quoted
  quote_proportional kind pool bpt slippage = do
    account ← read account_of
    block ← read (λ s. s)
    check (is_positive bpt) not_positive
    amounts ← some_or no_answer (node.query_liquidity block kind pool (pos_part bpt) account)
    limits ← quoted (liquidity_limits (map (λ n. pos n) amounts) slippage kind)
    done record {
      kind = kind;
      pool = pool;
      account = account;
      tokens = node.pool_tokens block pool;
      amounts = map (λ n. pos n) amounts;
      minimum_bpt = pos 0;
      bpt = bpt;
      limits = map (λ n. pos n) limits;
    }

  -- `quote || await quoteLiquidity(...)`
  abbrev pub quote_or : Option Quote → Act Quote → Act Quote
  quote_or none m = m
  quote_or (some q) m = done q

  unfoldable pub read_derived_readiness : ℕ → Act Readiness
  unfolding ensure_chain readiness_of
  read_derived_readiness id = do
    _ ← ensure_chain node config
    block ← read (λ s. s)
    readiness_of (node.derived block id)

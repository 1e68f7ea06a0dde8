-- ===== src/Exchange/History.antt =====
-- index.mjs, `executions`: the trades of a wallet, as the pairs have logged them. A hash has the order of its number.
use oncm.Prelude.{
  ℕ, ◌*◌, ◌/◌, Bool, true, false, not, ◌&&◌, ◌||◌, Option, none, some, String, List, [], ◌∷◌, ◌++◌,
  ltb, leb, ◌==◌, get_elem?, if◌then◌else◌,
}
use oncm.Prelude.Sort.{sort}
use oncm.Prelude.Acting.{done, some_or, ◌>>=◌}
use oncm.Exchange.Chain.{no_pair, SwapLog, Act, Node, Config, read}
use oncm.Exchange.Markets.{Market, markets}

pub data Direction : Type 0 where
  buys sells complex : Direction

-- The token that is paid with, or that is got: `none` is T, a side otherwise.
pub record Execution : Type 0 where
  pub statement_id : ℕ
  pub title : Option String
  pub pool : ℕ
  pub side : ℕ
  pub direction : Direction
  pub actor : ℕ
  pub transaction : ℕ
  pub block : ℕ
  pub log_index : ℕ
  pub timestamp : ℕ
  pub amount_in : ℕ
  pub input_asset : Option ℕ
  pub amount_out : ℕ
  pub output_asset : Option ℕ
  pub nominal_fee_input : ℕ
  pub t_amount : ℕ
  pub outcome_amount : ℕ

abbrev pub is_positive : ℕ → Bool
is_positive n = ltb 0 n

-- the amount of the token that comes first, or of the other
abbrev pub of_pair : Bool → ℕ × ℕ → ℕ
of_pair true p = p.0
of_pair false p = p.1

abbrev pub direction_of : Bool → Bool → Direction
direction_of true sell = buys
direction_of false true = sells
direction_of false false = complex

unfoldable pub execution_of : Market → ℕ → ℕ → Bool → SwapLog → ℕ → ℕ → Execution
execution_of m side pair t_first log actor timestamp =
    let t_in = of_pair t_first log.amount_in in
    let t_out = of_pair t_first log.amount_out in
    let o_in = of_pair (not t_first) log.amount_in in
    let o_out = of_pair (not t_first) log.amount_out in
    let buy = is_positive t_in && is_positive o_out in
    let sell = is_positive o_in && is_positive t_out in
    let amount_in = if buy then t_in else o_in in
    record {
      statement_id = m.id;
      title = m.metadata.title;
      pool = pair;
      side = side;
      direction = direction_of buy sell;
      actor = actor;
      transaction = log.transaction;
      block = log.block;
      log_index = log.index;
      timestamp = timestamp;
      amount_in = amount_in;
      input_asset = if buy then none else some side;
      amount_out = if buy then o_out else t_out;
      output_asset = if buy then some side else none;
      nominal_fee_input = amount_in * 3 / 1000;
      t_amount = if buy then t_in else t_out;
      outcome_amount = if buy then o_out else o_in;
    }

-- the later block first, in a block the later log, then the hash
unfoldable pub is_before : Execution → Execution → Bool
is_before a b =
    ltb b.block a.block
    || (a.block == b.block
        && (ltb b.log_index a.log_index
            || (a.log_index == b.log_index && leb a.transaction b.transaction)))

module _ (node : Node) (config : Config) (address : ℕ) where
  -- a row for a transaction of the wallet, and none for another's
  unfoldable pub row_of_log : Market → ℕ → ℕ → Bool → SwapLog → Act (List Execution)
  unfolding execution_of
  row_of_log m side pair t_first log = do
    actor ← read (λ s. node.sender s log.transaction)
    if actor == address
        then (read (λ s. node.block_time s log.block) >>= λ timestamp.
            done (execution_of m side pair t_first log actor timestamp ∷ []))
        else done []

  unfoldable pub rows_of_logs : Market → ℕ → ℕ → Bool → List SwapLog → Act (List Execution)
  unfolding row_of_log
  rows_of_logs m side pair t_first [] = done []
  rows_of_logs m side pair t_first (log ∷ logs) = do
    row ← row_of_log m side pair t_first log
    rest ← rows_of_logs m side pair t_first logs
    done (row ++ rest)

  unfoldable pub rows_of_side : Market → ℕ → Act (List Execution)
  unfolding rows_of_logs
  rows_of_side m side = do
    pair ← some_or no_pair (get_elem? m.pairs side)
    token0 ← read (λ s. node.first_token s pair)
    logs ← read (λ s. node.swaps s pair)
    rows_of_logs m side pair (token0 == config.token) logs

  unfoldable pub rows_of_markets : List Market → Act (List Execution)
  unfolding rows_of_side
  rows_of_markets [] = done []
  rows_of_markets (m ∷ ms) = do
    first ← rows_of_side m 0
    second ← rows_of_side m 1
    rest ← rows_of_markets ms
    done (first ++ (second ++ rest))

  unfoldable pub executions : Act (List Execution)
  unfolding markets rows_of_markets is_before sort
  executions = do ms ← markets node config; rows ← rows_of_markets ms; done (sort is_before rows)

-- ===== src/Exchange/Swapped.antt =====
-- index.mjs, `executions`: the row of a swap that a pair has logged.
use oncm.Prelude.{
  ℕ, ◌+◌, ◌*◌, ◌≤◌, ◌<◌, ◌≡◌, ◌≢◌, refl, sym, ◌∙◌, ◌⊎◌, inl, inr, true, false, not, Bool, none,
  some, ◌==◌, ==_iff, Bool-cases, arith,
}
use oncm.Exchange.Chain.{SwapLog, Session, Node, Config}
use oncm.Exchange.Markets.{Market}
use oncm.Exchange.History.{Direction, buys, sells, complex, Execution, of_pair, execution_of}

-- The amounts of a swap: of T in and out, and of the outcome in and out, by whether T is the first token of the pair.
abbrev pub AreAmounts : Node → Config → ℕ → SwapLog → ℕ → ℕ → ℕ → ℕ → Type 0
AreAmounts node config pair log t_in t_out o_in o_out =
    (s : Session) × (((node.first_token s pair ≡ config.token)
        × (t_in ≡ log.amount_in.0)
        × (t_out ≡ log.amount_out.0)
        × (o_in ≡ log.amount_in.1)
        × (o_out ≡ log.amount_out.1))
      ⊎ ((node.first_token s pair ≢ config.token)
          × (t_in ≡ log.amount_in.1)
          × (t_out ≡ log.amount_out.1)
          × (o_in ≡ log.amount_in.0)
          × (o_out ≡ log.amount_out.0)))

-- One of two amounts is nothing.
abbrev pub Lacks : ℕ → ℕ → Type 0
Lacks m n = (m ≡ 0) ⊎ (n ≡ 0)

-- The outcome is paid with, and T is got.
abbrev pub PaysOutcome : ℕ → ℕ → Execution → Type 0
PaysOutcome t_out o_in r =
    (r.amount_in ≡ o_in)
    × (r.amount_out ≡ t_out)
    × (r.t_amount ≡ t_out)
    × (r.outcome_amount ≡ o_in)
    × (r.input_asset ≡ some r.side)
    × (r.output_asset ≡ none)

-- A purchase pays T for the outcome, a sale the outcome for T; what is neither is written like a sale.
abbrev pub IsDirected : Direction → ℕ → ℕ → ℕ → ℕ → Execution → Type 0
IsDirected buys t_in t_out o_in o_out r =
    (0 < t_in)
    × (0 < o_out)
    × (r.amount_in ≡ t_in)
    × (r.amount_out ≡ o_out)
    × (r.t_amount ≡ t_in)
    × (r.outcome_amount ≡ o_out)
    × (r.input_asset ≡ none)
    × (r.output_asset ≡ some r.side)
IsDirected sells t_in t_out o_in o_out r =
    Lacks t_in o_out × (0 < o_in) × (0 < t_out) × PaysOutcome t_out o_in r
IsDirected complex t_in t_out o_in o_out r =
    Lacks t_in o_out × Lacks o_in t_out × PaysOutcome t_out o_in r

-- 0.3 % of what is paid, rounded down
abbrev pub IsFee : Execution → Type 0
IsFee r =
    (1000 * r.nominal_fee_input ≤ 3 * r.amount_in)
    × (3 * r.amount_in < 1000 * (r.nominal_fee_input + 1))

-- The row of a log: of its market, pair, transaction and time, with the amounts of the log.
abbrev pub IsTradeOf : Node → Config → Market → ℕ → ℕ → SwapLog → Execution → Type 0
IsTradeOf node config m side pair log r =
    (t_in t_out o_in o_out : ℕ) × AreAmounts node config pair log t_in t_out o_in o_out
    × IsDirected r.direction t_in t_out o_in o_out r
    × IsFee r
    × (r.statement_id ≡ m.id)
    × (r.title ≡ m.metadata.title)
    × (r.pool ≡ pair)
    × (r.side ≡ side)
    × (r.transaction ≡ log.transaction)
    × (r.block ≡ log.block)
    × (r.log_index ≡ log.index)
    × (s : Session) × (r.timestamp ≡ node.block_time s log.block)

execution-IsDirected :
    (m : Market) (side pair : ℕ) (t_first : Bool) (log : SwapLog) (actor time : ℕ)
    → IsDirected
        (execution_of m side pair t_first log actor time).direction
        (of_pair t_first log.amount_in)
        (of_pair t_first log.amount_out)
        (of_pair (not t_first) log.amount_in)
        (of_pair (not t_first) log.amount_out)
        (execution_of m side pair t_first log actor time)
unfolding execution_of
execution-IsDirected m side pair true log actor time = ground arith
execution-IsDirected m side pair false log actor time = ground arith

execution-IsFee :
    (m : Market) (side pair : ℕ) (t_first : Bool) (log : SwapLog) (actor time : ℕ)
    → IsFee (execution_of m side pair t_first log actor time)
unfolding execution_of
execution-IsFee m side pair true log actor time = ground arith
execution-IsFee m side pair false log actor time = ground arith

pub not_equal : (m n : ℕ) → m ≡ n → (m == n) ≡ false → ⊥
not_equal m n p e = ground arith

amounts_of :
    (node : Node) (config : Config) (pair token0 : ℕ) (log : SwapLog) (s : Session)
    → token0 ≡ node.first_token s pair
    → AreAmounts node config pair log
        (of_pair (token0 == config.token) log.amount_in)
        (of_pair (token0 == config.token) log.amount_out)
        (of_pair (not (token0 == config.token)) log.amount_in)
        (of_pair (not (token0 == config.token)) log.amount_out)
amounts_of node config pair token0 log s first = (
  s,
  elim (Bool-cases (token0 == config.token)) [
    | inl e ↦
        inl
          (sym first ∙ (==_iff token0 config.token).0 e, rw e refl, rw e refl, rw e refl, rw e refl)
    | inr e ↦ inr (
      (λ p. not_equal token0 config.token (first ∙ p) e),
      rw e refl,
      rw e refl,
      rw e refl,
      rw e refl,
    )
  ],
)

pub execution-IsTradeOf :
    (node : Node) (config : Config) (m : Market) (side pair : ℕ) (log : SwapLog)
    (actor time token0 : ℕ)
    → ((s : Session) × (token0 ≡ node.first_token s pair))
    → ((s : Session) × (time ≡ node.block_time s log.block))
    → IsTradeOf node config m side pair log
        (execution_of m side pair (token0 == config.token) log actor time)
unfolding execution_of
execution-IsTradeOf node config m side pair log actor time token0 (s, first) (u, clock) = (
  of_pair (token0 == config.token) log.amount_in,
  of_pair (token0 == config.token) log.amount_out,
  of_pair (not (token0 == config.token)) log.amount_in,
  of_pair (not (token0 == config.token)) log.amount_out,
  amounts_of node config pair token0 log s first,
  execution-IsDirected m side pair (token0 == config.token) log actor time,
  execution-IsFee m side pair (token0 == config.token) log actor time,
  refl,
  refl,
  refl,
  refl,
  refl,
  refl,
  refl,
  u,
  clock,
)

-- ===== src/Exchange/Markets.antt =====
-- index.mjs, `markets` and `snapshot`, and the registration and the resolution of statements with derived-readiness.mjs.
use oncm.Prelude.{
  ℕ, zero, suc, ◌+◌, Bool, true, false, not, ◌||◌, Option, none, some, String, List, [], ◌∷◌, ◌==◌,
  if◌then◌else◌,
}
use oncm.Prelude.Acting.{done, fail, check, some_or, ◌>>=◌, ◌>>◌}
use oncm.Exchange.Chain.{
  changed, not_ready, no_block, invalid_outcome, protocol_create_math, protocol_create_operator,
  protocol_create_derived, protocol_resolve_proof, protocol_resolve_derived, named, Act, Statement,
  Metadata, Node, Config, read, tx, tx_plain,
}

pub record Market : Type 0 where
  pub id : ℕ
  pub statement : Statement
  pub metadata : Metadata
  pub yes_token : ℕ
  pub no_token : ℕ
  pub pairs : List ℕ

-- `side === 0 ? m.yes : m.no`
abbrev pub outcome_token_of : Market → ℕ → ℕ
outcome_token_of m side = if side == 0 then m.yes_token else m.no_token

-- The statement's text is the title where it is no JSON.
unfoldable pub metadata_of : Option Metadata → String → Metadata
metadata_of none text = record { title = some text; rest = none }
metadata_of (some m) text = m

pub record Pool : Type 0 where
  pub address : ℕ
  pub token0 : ℕ
  pub reserve0 : ℕ
  pub reserve1 : ℕ
  pub supply : ℕ
  pub protocol_lp : ℕ

pub record Snapshot : Type 0 where
  pub balances : List ℕ
  pub pools : List Pool

pub data Readiness : Type 0 where
  unknown resolved base pending : Readiness
  ready : ℕ → Readiness

abbrev pub is_ready : Readiness → Bool
is_ready (ready outcome) = true
is_ready _ = false

module _ (node : Node) (config : Config) where
  unfoldable pub market_at : ℕ → Act Market
  unfolding metadata_of
  market_at i = do
    id ← read (λ s. node.statement_id s i)
    statement ← read (λ s. node.statement s id)
    let metadata = metadata_of (node.parse statement.metadata) statement.metadata
    yes_token ← read (λ s. node.outcome_token s statement.market 0)
    no_token ← read (λ s. node.outcome_token s statement.market 1)
    yes_pair ← read (λ s. node.pair s yes_token config.token)
    no_pair ← read (λ s. node.pair s no_token config.token)
    done (record {
      id = id;
      statement = statement;
      metadata = metadata;
      yes_token = yes_token;
      no_token = no_token;
      pairs = yes_pair ∷ no_pair ∷ [];
    })

  -- `for (let i = 0; i < n; i++)`, with the rounds that are left
  unfoldable pub markets_from : ℕ → ℕ → Act (List Market)
  unfolding market_at
  markets_from zero i = done []
  markets_from (suc rounds) i = do
    m ← market_at i
    rest ← markets_from rounds (i + 1)
    done (m ∷ rest)

  unfoldable pub markets : Act (List Market)
  unfolding markets_from
  markets = read node.count >>= λ n. markets_from n 0

  unfoldable pub pool_of : ℕ → Act Pool
  pool_of a = do
    reserves ← read (λ s. node.reserves s a)
    token0 ← read (λ s. node.first_token s a)
    supply ← read (λ s. node.supply s a)
    held ← read (λ s. node.balance s a config.allocation)
    done (record {
      address = a;
      token0 = token0;
      reserve0 = reserves.0;
      reserve1 = reserves.1;
      supply = supply;
      protocol_lp = held;
    })

  unfoldable pub pools_of : List ℕ → Act (List Pool)
  unfolding pool_of
  pools_of [] = done []
  pools_of (a ∷ as') = do p ← pool_of a; rest ← pools_of as'; done (p ∷ rest)

  unfoldable pub balances_of : Option ℕ → List ℕ → Act (List ℕ)
  balances_of none tokens = done (0 ∷ 0 ∷ 0 ∷ 0 ∷ 0 ∷ [])
  balances_of (some address) [] = done []
  balances_of (some address) (a ∷ as') = do
    held ← read (λ s. node.balance s a address)
    rest ← balances_of (some address) as'
    done (held ∷ rest)

  unfoldable pub snapshot : Market → Option ℕ → Act Snapshot
  unfolding balances_of pools_of
  snapshot m address = do
    balances ← balances_of address (config.token ∷ m.yes_token ∷ m.no_token ∷ m.pairs)
    pools ← pools_of m.pairs
    done (record { balances = balances; pools = pools })

  unfoldable pub create_math : ℕ → ℕ → String → ℕ → Act (Unit {0})
  unfolding tx_plain
  create_math goal profile metadata certificate =
      tx_plain node config "Register mathematical market"
        (protocol_create_math goal profile metadata certificate)

  unfoldable pub create_operator : ℕ → ℕ → String → Act (Unit {0})
  unfolding tx_plain
  create_operator operator_id args metadata =
      tx_plain node config "Register versioned operator market"
        (protocol_create_operator operator_id args metadata)

  unfoldable pub create_derived : ℕ → ℕ → ℕ → ℕ → String → Act (Unit {0})
  unfolding tx_plain
  create_derived kind dependency until target metadata =
      tx_plain node config "Register derived market"
        (protocol_create_derived kind dependency until target metadata)

  unfoldable pub resolve : Market → ℕ → ℕ → Act (Unit {0})
  unfolding tx_plain
  resolve m outcome certificate =
      tx_plain node config "Submit verified mathematical proof"
        (protocol_resolve_proof m.id outcome certificate)

  -- What follows on the registry's evaluation at the block.
  unfoldable pub evaluated : ℕ → Act Readiness
  evaluated outcome =
      if outcome == 0
      then done pending
      else if outcome == 1 || outcome == 2
      then done (ready outcome)
      else fail invalid_outcome

  -- All that is read is read at one block.
  unfoldable pub read_derived_readiness : ℕ → Act Readiness
  unfolding evaluated
  read_derived_readiness id = do
    number ← read node.block_number
    _ ← some_or no_block number
    block ← read (λ s. s)
    let statement = node.statement block id
    if not statement.is_known
        then done unknown
        else if not (statement.outcome == 0)
        then done resolved
        else if statement.kind == 0
        then done base
        else evaluated (node.derived_outcome block id)

  -- `isCurrent()`
  unfoldable pub draft_current : Act (Unit {0})
  draft_current = read node.draft_is_current >>= λ b. check b changed

  unfoldable pub resolve_derived : Market → Act (Unit {0})
  unfolding read_derived_readiness draft_current tx
  resolve_derived m = do
    state ← read_derived_readiness m.id
    draft_current
    check (is_ready state) not_ready
    tx node config (named "Resolve chain-state predicate")
        (draft_current >> done (protocol_resolve_derived m.id, none))

-- ===== src/Client/Operations.antt =====
-- index.mjs: the operations of the client that send transactions. An amount that is given is a number: the contracts take no other.
use oncm.Prelude.{
  ℕ, Bool, true, false, not, Option, none, some, List, [], ◌∷◌, map, ltb, ◌==◌, if◌then◌else◌,
  Result, ok, throw,
}
use oncm.Prelude.Int.{ℤ, pos, pos_part}
use oncm.Market.Liquidity.{join, exit, initialize, Quote, validate_liquidity_quote}
use oncm.Market.SwapLimits.{positive_uint, fix_limits, Swap}
use oncm.Market.SwapLimits as SwapLimits
use oncm.Prelude.Acting.{done, fail, ◌>>=◌, ◌>>◌, check, some_or}
use oncm.Client.Chain.{
  not_open, bad_amounts, changed, not_ready, no_revenue, no_answer, bad_swap, position_split,
  position_merge, position_redeem, router_initialize, router_add, router_remove, router_swap,
  registry_register, registry_submit_proof, registry_register_derived, registry_resolve_derived,
  coordinator_create, allocation_collect, allocation_distribute, warehouse_withdraw, Node, Config,
  Act, read, get_address, ensure_chain, send_when, send, approve, permit,
}
use oncm.Client.Quotes.{
  account_of, quoted, quote_initialize, quote_proportional, quote_or, Readiness, ready,
  read_derived_readiness,
}

unfoldable pub swapping : {A : Type 0} → Result SwapLimits.Error A → Act A
swapping (throw e) = fail (bad_swap e)
swapping (ok a) = done a

-- What a swap is asked for: the tokens, the amount, the slippage, and the limits where they were fixed before.
pub record SwapRequest : Type 0 where
  pub pool : ℕ
  pub token_in : ℕ
  pub token_out : ℕ
  pub swap : Swap

abbrev pub is_ready : Readiness → Bool
is_ready ready = true
is_ready _ = false

module _ (node : Node) (config : Config) where
  unfoldable pub split : ℕ → ℕ → Act (Unit {0})
  unfolding approve send
  split id amount = do
    approve node config config.true_token config.position_router amount
    send node config (position_split id amount)

  unfoldable pub merge : ℕ → ℕ → Act (Unit {0})
  unfolding approve send
  merge id amount = do
    tokens ← read (λ s. node.outcome_tokens s id)
    approve node config tokens.0 config.position_router amount
    approve node config tokens.1 config.position_router amount
    send node config (position_merge id amount)

  -- no approval for an amount of nothing
  unfoldable pub approve_some : ℕ → ℕ → Act (Unit {0})
  unfolding approve
  approve_some token amount =
      if amount == 0 then done tt else approve node config token config.position_router amount

  unfoldable pub redeem : ℕ → ℕ → ℕ → Act (Unit {0})
  unfolding approve_some send
  redeem id yes_amount no_amount = do
    tokens ← read (λ s. node.outcome_tokens s id)
    approve_some tokens.0 yes_amount
    approve_some tokens.1 no_amount
    send node config (position_redeem id yes_amount no_amount)

  -- `for (let i = 0; i < tokens.length; i++) await permit(tokens[i], amounts[i])`
  unfoldable pub permit_all : List ℕ → List ℕ → Act (Unit {0})
  unfolding permit
  permit_all [] amounts = done tt
  permit_all (t ∷ ts) [] = fail bad_amounts
  permit_all (t ∷ ts) (a ∷ as') = permit node config t a >> permit_all ts as'

  unfoldable pub initialize_pool : ℕ → List ℕ → Option Quote → Act (Unit {0})
  unfolding ensure_chain get_address quoted quote_initialize permit_all send
  initialize_pool pool amounts quote = do
    _ ← ensure_chain node config
    id ← read (λ s. node.statement_of_pool s pool)
    check (not (id == 0)) not_open
    outcome ← read (λ s. node.outcome_of s id)
    check (outcome == 0) not_open
    tokens ← read (λ s. node.pool_tokens s pool)
    given ←
        quote_or node config quote
          (quote_initialize node config pool (map (λ n. pos n) amounts) (some (pos 100)))
    user ← get_address node config
    q ← quoted (
        validate_liquidity_quote (some given) (record {
          kind = initialize;
          pool = pool;
          account = user;
          tokens = tokens;
          amounts = map (λ n. pos n) amounts;
          bpt = pos 0;
        }))
    permit_all tokens amounts
    send node config (router_initialize pool tokens amounts (pos_part q.minimum_bpt))

  unfoldable pub join_pool : ℕ → ℕ → Option ℤ → Option Quote → Act (Unit {0})
  unfolding ensure_chain get_address quoted quote_proportional permit_all send
  join_pool pool bpt slippage quote = do
    _ ← ensure_chain node config
    tokens ← read (λ s. node.pool_tokens s pool)
    user ← get_address node config
    given ← quote_or node config quote (quote_proportional node config join pool (pos bpt) slippage)
    q ← quoted (
        validate_liquidity_quote (some given) (record {
          kind = join;
          pool = pool;
          account = user;
          tokens = tokens;
          amounts = [];
          bpt = pos bpt;
        }))
    permit_all tokens (map pos_part q.limits)
    send node config (router_add pool (map pos_part q.limits) bpt)

  unfoldable pub exit_pool : ℕ → ℕ → Option ℤ → Option Quote → Act (Unit {0})
  unfolding ensure_chain get_address quoted quote_proportional approve send
  exit_pool pool bpt slippage quote = do
    _ ← ensure_chain node config
    user ← get_address node config
    tokens ← read (λ s. node.pool_tokens s pool)
    given ← quote_or node config quote (quote_proportional node config exit pool (pos bpt) slippage)
    q ← quoted (
        validate_liquidity_quote (some given) (record {
          kind = exit;
          pool = pool;
          account = user;
          tokens = tokens;
          amounts = [];
          bpt = pos bpt;
        }))
    approve node config pool config.router bpt
    send node config (router_remove pool bpt (map pos_part q.limits))

  -- `quote` of the swap's pool, asked for where no limits are given
  unfoldable pub ask_swap : SwapRequest → ℕ → Option (ℤ × ℤ) → Act ℕ
  unfolding get_address
  ask_swap r input (some limits) = done 0
  ask_swap r input none = do
    user ← get_address node config
    answer ← read (λ s. node.query_swap s r.pool r.token_in r.token_out input user)
    some_or no_answer answer

  -- `swap`, through `executeBoundedSwap`
  unfoldable pub swap_tokens : SwapRequest → Act (Unit {0})
  unfolding ensure_chain ask_swap swapping permit send
  swap_tokens r = do
    _ ← ensure_chain node config
    input ← swapping (positive_uint r.swap.amount)
    now ← read node.timestamp
    out ← ask_swap r input r.swap.limits
    fixed ← swapping (
        (fix_limits (record { now = pos now; quote = pos out; approves = true }) r.swap (pos now)
          r.swap.limits).1)
    check (ltb now fixed.deadline) (bad_swap SwapLimits.quote_expired)
    permit node config r.token_in input
    send node config
        (router_swap r.pool r.token_in r.token_out input fixed.minimum_amount_out fixed.deadline)

  unfoldable pub still_current : Act (Unit {0})
  still_current = read node.is_current >>= λ b. check b changed

  unfoldable pub resolve_derived : ℕ → Act (Unit {0})
  unfolding read_derived_readiness send_when still_current
  resolve_derived id = do
    state ← read_derived_readiness node config id
    check (is_ready state) not_ready
    send_when node config still_current (registry_resolve_derived id)

  unfoldable pub register : ℕ → ℕ → ℕ → ℕ → ℕ → Act (Unit {0})
  unfolding send_when still_current
  register goal profile title manifest certificate =
      send_when node config still_current
        (registry_register goal profile title manifest certificate)

  unfoldable pub claim : ℕ → Act (Unit {0})
  unfolding get_address send
  claim token = do
    user ← get_address node config
    balance ← read (λ s. node.claimable s user token)
    check (not (balance == 0)) no_revenue
    send node config (warehouse_withdraw user token balance user)

module _ (node : Node) (config : Config) where
  -- a quote alone, for the account of the wallet or for none
  unfoldable pub quote_swap : SwapRequest → ℕ → Act ℕ
  quote_swap r input = do
    account ← read (account_of node config)
    answer ← read (λ s. node.query_swap s r.pool r.token_in r.token_out input account)
    some_or no_answer answer

  unfoldable pub create_pool : ℕ → ℕ → ℕ → ℕ → ℕ → Act (Unit {0})
  unfolding send
  create_pool id side weight fee salt =
      send node config (coordinator_create id side weight fee salt)

  unfoldable pub prove : ℕ → ℕ → ℕ → Act (Unit {0})
  unfolding send
  prove id outcome certificate = send node config (registry_submit_proof id outcome certificate)

  unfoldable pub register_derived : ℕ → ℕ → ℕ → ℕ → ℕ → Act (Unit {0})
  unfolding send
  register_derived id kind expected deadline title =
      send node config (registry_register_derived id kind expected deadline title)

  -- by the method of the deployment, `revenueCollectionMethod`
  unfoldable pub collect : ℕ → Act (Unit {0})
  unfolding send
  collect pool = send node config (allocation_collect config.collects_all pool)

  unfoldable pub distribute : ℕ → ℕ → Act (Unit {0})
  unfolding send
  distribute epoch token = send node config (allocation_distribute epoch token)

-- The operations, with their arguments.
pub data Command : Type 0 where
  splits : ℕ → ℕ → Command
  merges : ℕ → ℕ → Command
  redeems : ℕ → ℕ → ℕ → Command
  initializes : ℕ → List ℕ → Option Quote → Command
  joins : ℕ → ℕ → Option ℤ → Option Quote → Command
  exits : ℕ → ℕ → Option ℤ → Option Quote → Command
  swaps : SwapRequest → Command
  resolves : ℕ → Command
  registers : ℕ → ℕ → ℕ → ℕ → ℕ → Command
  claims : ℕ → Command
  proves : ℕ → ℕ → ℕ → Command
  derives : ℕ → ℕ → ℕ → ℕ → ℕ → Command
  creates_pool : ℕ → ℕ → ℕ → ℕ → ℕ → Command
  collects : ℕ → Command
  distributes : ℕ → ℕ → Command

unfoldable pub run : Node → Config → Command → Act (Unit {0})
unfolding split merge redeem initialize_pool join_pool exit_pool swap_tokens resolve_derived
    register claim send create_pool prove register_derived collect distribute
run node config (splits id n) = split node config id n
run node config (merges id n) = merge node config id n
run node config (redeems id y n) = redeem node config id y n
run node config (initializes pool amounts q) = initialize_pool node config pool amounts q
run node config (joins pool bpt slippage q) = join_pool node config pool bpt slippage q
run node config (exits pool bpt slippage q) = exit_pool node config pool bpt slippage q
run node config (swaps r) = swap_tokens node config r
run node config (resolves id) = resolve_derived node config id
run node config (registers g p t m c) = register node config g p t m c
run node config (claims token) = claim node config token
run node config (proves id outcome certificate) = prove node config id outcome certificate
run node config (derives id kind expected deadline title) =
    register_derived node config id kind expected deadline title
run node config (creates_pool id side weight fee salt) =
    create_pool node config id side weight fee salt
run node config (collects pool) = collect node config pool
run node config (distributes epoch token) = distribute node config epoch token

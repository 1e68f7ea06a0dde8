-- ===== src/Client/Allowed.antt =====
-- index.mjs: the calls that each operation of the client may send.
use oncm.Prelude.{ℕ, ◌+◌, ◌-◌, ◌^◌, ◌≡◌, ◌⊎◌, Option, none, some, List, [], ◌∷◌, map}
use oncm.Prelude.Int.{ℤ, pos, pos_part}
use oncm.Market.Liquidity.{Kind, join, exit, initialize, Quote, IsLimit, AreLimits, Fits}
use oncm.Market.SwapLimits.{Bound, World}
use oncm.Client.Chain.{
  Action, erc20_approve, permit2_approve, position_split, position_merge, position_redeem,
  router_initialize, router_add, router_remove, router_swap, registry_register,
  registry_submit_proof, registry_register_derived, registry_resolve_derived, coordinator_create,
  allocation_collect, allocation_distribute, warehouse_withdraw, Session, Node, Config,
}
use oncm.Client.Operations.{
  SwapRequest, Command, splits, merges, redeems, initializes, joins, exits, swaps, resolves,
  registers, claims, proves, derives, creates_pool, collects, distributes,
}

-- An approval by permit2 is for the router, for the most that permit2 can hold, and for thirty days from what the clock said.
abbrev pub ForRouter : Node → Config → ℕ → ℕ → ℕ → Type 0
ForRouter node config router amount expiry =
    (router ≡ config.router)
    × (amount ≡ 2 ^ 160 - 1)
    × (s : Session) × (expiry ≡ node.timestamp s + 2592000)

-- A token with the amount that stands at its place.
abbrev pub Paired : ℕ → ℕ → List ℕ → List ℕ → Type 0
Paired t a (x ∷ xs) (y ∷ ys) = ((t ≡ x) × (a ≡ y)) ⊎ Paired t a xs ys
Paired t a _ _ = ⊥

abbrev pub PoolTokens : Node → ℕ → List ℕ → Type 0
PoolTokens node pool ts = (s : Session) × (ts ≡ node.pool_tokens s pool)

abbrev pub OwnAddress : Node → ℕ → Type 0
OwnAddress node user = (s : Session) × (node.user s ≡ some user)

-- The limits are those of a quote that fits the operation: the one given, or, where none is, one whose limits are the node's amounts with the
-- slippage.
abbrev pub QuotedLimits : Node → Kind → ℕ → ℕ → Option ℤ → Option Quote → Quote → Type 0
QuotedLimits node kind pool bpt slippage (some given) q = q ≡ given
QuotedLimits node kind pool bpt slippage none q =
    (s : Session) × (account b : ℕ) × (amounts limits : List ℕ) × (node.query_liquidity s kind pool
        bpt account
      ≡ some amounts)
    × (slippage ≡ some (pos b))
    × AreLimits kind b (map (λ n. pos n) amounts) limits
    × (q.limits ≡ map (λ n. pos n) limits)

abbrev pub LimitsOf : Node → Kind → ℕ → ℕ → Option ℤ → Option Quote → List ℕ → List ℕ → Type 0
LimitsOf node kind pool bpt slippage given ts limits =
    (q : Quote) × (user : ℕ) × PoolTokens node pool ts
    × OwnAddress node user
    × QuotedLimits node kind pool bpt slippage given q
    × Fits q (record {
      kind = kind;
      pool = pool;
      account = user;
      tokens = ts;
      amounts = [];
      bpt = pos bpt;
    })
    × (limits ≡ map pos_part q.limits)

-- The least BPT is that of a quote that fits: the one given, or, where none is, what the node would mint less one percent, rounded down.
abbrev pub QuotedLeast : Node → ℕ → List ℕ → Option Quote → Quote → Type 0
QuotedLeast node pool amounts (some given) q = q ≡ given
QuotedLeast node pool amounts none q =
    (s : Session) × (least : ℕ) × IsLimit exit 100
      (node.invariant s pool amounts - node.minimum_supply s) least
    × (q.minimum_bpt ≡ pos least)

abbrev pub LeastOf : Node → ℕ → List ℕ → Option Quote → List ℕ → ℕ → Type 0
LeastOf node pool amounts given ts least =
    (q : Quote) × (user : ℕ) × PoolTokens node pool ts
    × OwnAddress node user
    × QuotedLeast node pool amounts given q
    × Fits q (record {
      kind = initialize;
      pool = pool;
      account = user;
      tokens = ts;
      amounts = map (λ n. pos n) amounts;
      bpt = pos 0;
    })
    × (least ≡ pos_part q.minimum_bpt)

-- What a swap without limits of its own is bound to: the clock and the quote that the node told.
abbrev pub Told : Node → SwapRequest → ℕ → Option (ℤ × ℤ) → World → Type 0
Told node r input (some limits) w = Unit
Told node r input none w =
    (s t : Session) × (user quote : ℕ) × (w.now ≡ pos (node.timestamp s))
    × (w.quote ≡ pos quote)
    × (node.query_swap t r.pool r.token_in r.token_out input user ≡ some quote)

-- What a command may send: the one call that it is for, and approvals of what that call spends, to the contract that spends it.
abbrev pub Allowed : Node → Config → Command → Action → Type 0
Allowed node c (splits id n) (position_split j m) = (j ≡ id) × (m ≡ n)
Allowed node c (splits id n) (erc20_approve t spender a) =
    (t ≡ c.true_token) × (spender ≡ c.position_router) × (a ≡ n)
Allowed node c (merges id n) (position_merge j m) = (j ≡ id) × (m ≡ n)
Allowed node c (merges id n) (erc20_approve t spender a) =
    (spender ≡ c.position_router)
    × (a ≡ n)
    × (s : Session) × ((t ≡ (node.outcome_tokens s id).0) ⊎ (t ≡ (node.outcome_tokens s id).1))
Allowed node c (redeems id y n) (position_redeem j a b) = (j ≡ id) × (a ≡ y) × (b ≡ n)
Allowed node c (redeems id y n) (erc20_approve t spender a) =
    (spender ≡ c.position_router)
    × (s : Session) × (((t ≡ (node.outcome_tokens s id).0) × (a ≡ y))
        ⊎ ((t ≡ (node.outcome_tokens s id).1) × (a ≡ n)))
Allowed node c (initializes pool amounts q) (router_initialize p ts as' least) =
    (p ≡ pool) × (as' ≡ amounts) × LeastOf node pool amounts q ts least
Allowed node c (initializes pool amounts q) (erc20_approve t spender a) =
    (spender ≡ c.permit2) × (ts : List ℕ) × PoolTokens node pool ts × Paired t a ts amounts
Allowed node c (initializes pool amounts q) (permit2_approve t spender a e) =
    ForRouter node c spender a e
    × (ts : List ℕ) × (n : ℕ) × PoolTokens node pool ts
    × Paired t n ts amounts
Allowed node c (joins pool bpt slippage q) (router_add p limits b) =
    (p ≡ pool) × (b ≡ bpt) × (ts : List ℕ) × LimitsOf node join pool bpt slippage q ts limits
Allowed node c (joins pool bpt slippage q) (erc20_approve t spender a) =
    (spender ≡ c.permit2)
    × (ts limits : List ℕ) × LimitsOf node join pool bpt slippage q ts limits
    × Paired t a ts limits
Allowed node c (joins pool bpt slippage q) (permit2_approve t spender a e) =
    ForRouter node c spender a e
    × (ts limits : List ℕ) × (n : ℕ) × LimitsOf node join pool bpt slippage q ts limits
    × Paired t n ts limits
Allowed node c (exits pool bpt slippage q) (router_remove p b limits) =
    (p ≡ pool) × (b ≡ bpt) × (ts : List ℕ) × LimitsOf node exit pool bpt slippage q ts limits
Allowed node c (exits pool bpt slippage q) (erc20_approve t spender a) =
    (t ≡ pool) × (spender ≡ c.router) × (a ≡ bpt)
Allowed node c (swaps r) (router_swap p i o n least deadline) =
    (p ≡ r.pool)
    × (i ≡ r.token_in)
    × (o ≡ r.token_out)
    × (r.swap.amount ≡ pos n)
    × (w : World) × Told node r n r.swap.limits w
    × Bound w r.swap r.swap.limits (record { minimum_amount_out = least; deadline = deadline })
Allowed node c (swaps r) (erc20_approve t spender a) =
    (t ≡ r.token_in) × (spender ≡ c.permit2) × (r.swap.amount ≡ pos a)
Allowed node c (swaps r) (permit2_approve t spender a e) =
    (t ≡ r.token_in) × ForRouter node c spender a e
Allowed node c (resolves id) (registry_resolve_derived j) = j ≡ id
Allowed node c (registers g p t m e) (registry_register g' p' t' m' e') =
    (g' ≡ g) × (p' ≡ p) × (t' ≡ t) × (m' ≡ m) × (e' ≡ e)
Allowed node c (claims token) (warehouse_withdraw who t n to) =
    (t ≡ token)
    × (to ≡ who)
    × OwnAddress node who
    × (s : Session) × (n ≡ node.claimable s who token)
Allowed node c (proves id o e) (registry_submit_proof j o' e') = (j ≡ id) × (o' ≡ o) × (e' ≡ e)
Allowed node c (derives id k x d t) (registry_register_derived j k' x' d' t') =
    (j ≡ id) × (k' ≡ k) × (x' ≡ x) × (d' ≡ d) × (t' ≡ t)
Allowed node c (creates_pool id side w f salt) (coordinator_create j s' w' f' salt') =
    (j ≡ id) × (s' ≡ side) × (w' ≡ w) × (f' ≡ f) × (salt' ≡ salt)
Allowed node c (collects pool) (allocation_collect all p) = (p ≡ pool) × (all ≡ c.collects_all)
Allowed node c (distributes epoch token) (allocation_distribute e t) = (e ≡ epoch) × (t ≡ token)
Allowed node c _ _ = ⊥

-- ===== src/Client/Pools.antt =====
-- index.mjs: what `initialize`, `join` and `exit` may send.
use oncm.Prelude.{
  ℕ, ◌+◌, ◌-◌, ◌^◌, map, subst, ◌≡◌, refl, inl, inr, Option, none, some, List, [], ◌∷◌, Result, ok,
  throw,
}
use oncm.Prelude.Int.{ℤ, pos, pos_part}
use oncm.Market.Liquidity.{
  Quote, join, exit, validate_liquidity_quote, validate_liquidity_quote-Fits,
}
use oncm.Client.Chain.{Error, Action, erc20_approve, permit2_approve, Session, Node, Config, Act}
use oncm.Client.Quotes.{quoted, quote_initialize, quote_proportional, quote_or}
use oncm.Client.Operations.{
  permit_all, initialize_pool, join_pool, exit_pool, Command, initializes, joins, exits,
}
use oncm.Client.Steps.{
  yields_address, Keeps, Keeps-then, Keeps-read, Keeps-done, Keeps-fail, Keeps-check, Keeps-some,
  Keeps-ensure, Keeps-send, Keeps-address, Keeps-approve, Keeps-permit, Keeps-after, yields_read,
}
use oncm.Client.Allowed.{
  Paired, PoolTokens, OwnAddress, QuotedLimits, LimitsOf, QuotedLeast, Allowed,
}
use oncm.Client.Fresh.{quoted-Yields, quote_initialize-Yields, quote_proportional-Yields}

same_quote : {given r : Quote} → ◌≡◌ {A = Option Quote} (some given) (some r) → given ≡ r
same_quote h = cc

module _ (node : Node) (config : Config) where
  abbrev pub Fine : Command → Act (Unit {0}) → Type 0
  Fine command m = Keeps node config (Allowed node config command) m

  -- The commands that give permits for the tokens of a pool.
  permit_all-Keeps :
      (P : Action → Type 0) (ts as' : List ℕ)
      → ((t a : ℕ) → Paired t a ts as' → P (erc20_approve t config.permit2 a))
      → ((t a : ℕ) (s : Session)
          → Paired t a ts as'
          → P (permit2_approve t config.router (2 ^ 160 - 1) (node.timestamp s + 2592000)))
      → Keeps node config P (permit_all node config ts as')
  unfolding permit_all
  permit_all-Keeps P [] as' p r = Keeps-done
  permit_all-Keeps P (t ∷ ts) [] p r = Keeps-fail Error.bad_amounts
  permit_all-Keeps P (t ∷ ts) (a ∷ as') p r =
      Keeps-then (Keeps-permit t a (p t a (inl (refl, refl))) (λ s. r t a s (inl (refl, refl))))
        (λ _. permit_all-Keeps P ts as' (λ u b h. p u b (inr h)) (λ u b s h. r u b s (inr h)))

  module _ {P : Action → Type 0} where
    quoted-Keeps : {A : Type 0} (r : Result _ A) → Keeps node config P (quoted r)
    unfolding quoted
    quoted-Keeps (throw e) = Keeps-fail _
    quoted-Keeps (ok a) = Keeps-done

    quote_initialize-Keeps :
        (pool : ℕ) (amounts : List ℤ) (slippage : Option ℤ)
        → Keeps node config P (quote_initialize node config pool amounts slippage)
    unfolding quote_initialize
    quote_initialize-Keeps pool amounts slippage = Keeps-then (Keeps-read _) (λ account.
        Keeps-then (Keeps-read _) (λ block. Keeps-then (Keeps-check _ _) (λ _.
          Keeps-then (Keeps-check _ _) (λ _. Keeps-then (Keeps-check _ _) (λ _.
            Keeps-then (Keeps-check _ _)
              (λ _. Keeps-then (quoted-Keeps _) (λ least. Keeps-done)))))))

    quote_proportional-Keeps :
        (kind : _) (pool : ℕ) (bpt : ℤ) (slippage : Option ℤ)
        → Keeps node config P (quote_proportional node config kind pool bpt slippage)
    unfolding quote_proportional
    quote_proportional-Keeps kind pool bpt slippage = Keeps-then (Keeps-read _) (λ account.
        Keeps-then (Keeps-read _) (λ block. Keeps-then (Keeps-check _ _) (λ _.
          Keeps-then (Keeps-some _ _)
            (λ amounts. Keeps-then (quoted-Keeps _) (λ limits. Keeps-done)))))

    quote_or-Keeps :
        (q : Option Quote) {m : Act Quote}
        → Keeps node config P m
        → Keeps node config P (quote_or node config q m)
    quote_or-Keeps none h = h
    quote_or-Keeps (some q) h = Keeps-done

  pub initialize_pool-Fine :
      (pool : ℕ) (amounts : List ℕ) (q : Option Quote)
      → Fine (initializes pool amounts q) (initialize_pool node config pool amounts q)
  unfolding initialize_pool
  initialize_pool-Fine pool amounts q = Keeps-then Keeps-ensure (λ _.
      Keeps-then (Keeps-read _) (λ id. Keeps-then (Keeps-check _ _) (λ _.
        Keeps-then (Keeps-read _) (λ outcome. Keeps-then (Keeps-check _ _) (λ _.
          Keeps-after (PoolTokens node pool) (Keeps-read _) (yields_read _) (λ tokens own.
            Keeps-after (QuotedLeast node pool amounts q)
              (quote_or-Keeps q (quote_initialize-Keeps pool _ _))
              (quote_initialize-Yields node config pool amounts q)
              (λ given source.
                Keeps-after (OwnAddress node) Keeps-address (yields_address node config)
                  (λ user mine.
                    Keeps-after (λ r. validate_liquidity_quote (some given) _ ≡ ok r)
                      (quoted-Keeps _) (quoted-Yields _)
                      (λ r valid.
                        let (same, fits) = validate_liquidity_quote-Fits (some given) _ r valid in
                        Keeps-then
                          (permit_all-Keeps (Allowed node config (initializes pool amounts q))
                            tokens amounts (λ t a h. (refl, tokens, own, h))
                            (λ t a s h. ((refl, refl, s, refl), tokens, a, own, h)))
                          (λ _. Keeps-send _ (
                            refl,
                            refl,
                            (
                              r,
                              user,
                              own,
                              mine,
                              subst (QuotedLeast node pool amounts q) (same_quote same) source,
                              fits,
                              refl,
                            ),
                          )))))))))))

  pub join_pool-Fine :
      (pool bpt : ℕ) (slippage : Option ℤ) (q : Option Quote)
      → Fine (joins pool bpt slippage q) (join_pool node config pool bpt slippage q)
  unfolding join_pool
  join_pool-Fine pool bpt slippage q = Keeps-then Keeps-ensure (λ _.
      Keeps-after (PoolTokens node pool) (Keeps-read _) (yields_read _) (λ tokens own.
        Keeps-after (OwnAddress node) Keeps-address (yields_address node config) (λ user mine.
          Keeps-after (QuotedLimits node join pool bpt slippage q)
            (quote_or-Keeps q (quote_proportional-Keeps join pool (pos bpt) slippage))
            (quote_proportional-Yields node config join pool bpt slippage q)
            (λ given source.
              Keeps-after (λ r. validate_liquidity_quote (some given) _ ≡ ok r) (quoted-Keeps _)
                (quoted-Yields _)
                (λ r valid.
                  let (same, fits) = validate_liquidity_quote-Fits (some given) _ r valid in
                  let limits : List ℕ = map pos_part r.limits in
                  let bound : LimitsOf node join pool bpt slippage q tokens limits = (
                    r,
                    user,
                    own,
                    mine,
                    subst (QuotedLimits node join pool bpt slippage q) (same_quote same) source,
                    fits,
                    refl,
                  ) in
                  Keeps-then
                    (permit_all-Keeps (Allowed node config (joins pool bpt slippage q)) tokens
                      limits (λ t a h. (refl, tokens, limits, bound, h))
                      (λ t a s h. ((refl, refl, s, refl), tokens, limits, a, bound, h)))
                    (λ _. Keeps-send _ (refl, refl, tokens, bound)))))))

  pub exit_pool-Fine :
      (pool bpt : ℕ) (slippage : Option ℤ) (q : Option Quote)
      → Fine (exits pool bpt slippage q) (exit_pool node config pool bpt slippage q)
  unfolding exit_pool
  exit_pool-Fine pool bpt slippage q = Keeps-then Keeps-ensure (λ _.
      Keeps-after (OwnAddress node) Keeps-address (yields_address node config) (λ user mine.
        Keeps-after (PoolTokens node pool) (Keeps-read _) (yields_read _) (λ tokens own.
          Keeps-after (QuotedLimits node exit pool bpt slippage q)
            (quote_or-Keeps q (quote_proportional-Keeps exit pool (pos bpt) slippage))
            (quote_proportional-Yields node config exit pool bpt slippage q)
            (λ given source.
              Keeps-after (λ r. validate_liquidity_quote (some given) _ ≡ ok r) (quoted-Keeps _)
                (quoted-Yields _)
                (λ r valid.
                  let (same, fits) = validate_liquidity_quote-Fits (some given) _ r valid in
                  Keeps-then (Keeps-approve pool _ bpt (refl, refl, refl)) (λ _. Keeps-send _ (
                    refl,
                    refl,
                    tokens,
                    (
                      r,
                      user,
                      own,
                      mine,
                      subst (QuotedLimits node exit pool bpt slippage q) (same_quote same) source,
                      fits,
                      refl,
                    ),
                  )))))))

-- ===== src/Client/Fresh.antt =====
-- index.mjs, `quoteLiquidity`: what is known of the quote that an operation works with.
use oncm.Prelude.{
  ℕ, ◌-◌, ◌≡◌, refl, sym, ap, Option, none, some, List, [], ◌∷◌, map, Result, ok, throw,
  ok-injective, subst,
}
use oncm.Prelude.Int.{ℤ, pos, pos_part}
use oncm.Market.Liquidity.{
  Kind, exit, Quote, IsLimit, AreLimits, liquidity_limits, liquidity_limits-AreLimits,
}
use oncm.Client.Chain.{no_answer, Node, Config}
use oncm.Client.Quotes.{first_of, quoted, quote_initialize, quote_proportional, quote_or}
use oncm.Client.Steps.{Yields, yields_any, yields_value, yields_some, yields_then}
use oncm.Client.Allowed.{QuotedLimits, QuotedLeast}

pub quoted-Yields : {A : Type 0} (r : Result _ A) → Yields (quoted r) (λ a. r ≡ ok a)
unfolding quoted
quoted-Yields (throw e) = record { yields = λ s a h. cc }
quoted-Yields (ok b) = record { yields = λ s a h. ap (λ x. ok x) (ok-injective h) }

map-pos_part : (amounts : List ℕ) → map pos_part (map (λ n. pos n) amounts) ≡ amounts
map-pos_part [] = refl
map-pos_part (a ∷ as') = ap (λ u. a ∷ u) (map-pos_part as')

-- The limit of one amount.
first_of-IsLimit :
    (kind : Kind) (n : ℕ) (ls : List ℕ)
    → ((b : ℕ) × (some (pos 100) ≡ some (pos b)) × AreLimits kind b (pos n ∷ []) ls)
    → IsLimit kind 100 n (first_of ls)
first_of-IsLimit kind n [] (b, same, h) = absurd h
first_of-IsLimit kind n (l ∷ []) (b, same, h) =
    let e : 100 ≡ b = cc same in subst (λ u. IsLimit kind u n l) (sym e) h.0
first_of-IsLimit kind n (l ∷ k ∷ ls) (b, same, h) = absurd h.1

module _ (node : Node) (config : Config) where
  pub quote_initialize-Yields :
      (pool : ℕ) (amounts : List ℕ) (given : Option Quote)
      → Yields
          (quote_or node config given
            (quote_initialize node config pool (map (λ n. pos n) amounts) (some (pos 100))))
          (QuotedLeast node pool amounts given)
  unfolding quote_initialize
  quote_initialize-Yields pool amounts (some q) = yields_value refl
  quote_initialize-Yields pool amounts none =
      let Q = QuotedLeast node pool amounts none in
      yields_then (λ _. Unit) Q yields_any
        (λ account _.
          yields_then (λ _. Unit) Q yields_any
            (λ block _.
              yields_then (λ _. Unit) Q yields_any
                (λ _ _.
                  yields_then (λ _. Unit) Q yields_any
                    (λ _ _.
                      yields_then (λ _. Unit) Q yields_any
                        (λ _ _.
                          yields_then (λ _. Unit) Q yields_any
                            (λ _ _.
                              yields_then
                                (λ least.
                                  liquidity_limits
                                    (pos (
                                        node.invariant block pool
                                          (map pos_part (map (λ n. pos n) amounts))
                                        - node.minimum_supply block)
                                      ∷ [])
                                    (some (pos 100)) exit
                                  ≡ ok least)
                                Q (quoted-Yields _)
                                (λ least found.
                                  let (b, same, _, limits) =
                                    liquidity_limits-AreLimits _ _ exit least found in
                                  yields_value (
                                    block,
                                    first_of least,
                                    subst
                                        (λ u.
                                          IsLimit exit 100
                                            (node.invariant block pool u
                                              - node.minimum_supply block)
                                            (first_of least))
                                        (map-pos_part amounts)
                                        (first_of-IsLimit exit _ least (b, same, limits)),
                                    refl,
                                  ))))))))

  pub quote_proportional-Yields :
      (kind : Kind) (pool bpt : ℕ) (slippage : Option ℤ) (given : Option Quote)
      → Yields
          (quote_or node config given (quote_proportional node config kind pool (pos bpt) slippage))
          (QuotedLimits node kind pool bpt slippage given)
  unfolding quote_proportional
  quote_proportional-Yields kind pool bpt slippage (some q) = yields_value refl
  quote_proportional-Yields kind pool bpt slippage none =
      let Q = QuotedLimits node kind pool bpt slippage none in
      yields_then (λ _. Unit) Q yields_any
        (λ account _.
          yields_then (λ _. Unit) Q yields_any
            (λ block _.
              yields_then (λ _. Unit) Q yields_any
                (λ _ _.
                  yields_then
                    (λ amounts. node.query_liquidity block kind pool bpt account ≡ some amounts) Q
                    (yields_some no_answer _)
                    (λ amounts answered.
                      yields_then
                        (λ limits.
                          liquidity_limits (map (λ n. pos n) amounts) slippage kind ≡ ok limits)
                        Q (quoted-Yields _)
                        (λ limits found.
                          let (b, same, _, bound) =
                            liquidity_limits-AreLimits _ _ kind limits found in
                          yields_value
                            (block, account, b, amounts, limits, answered, same, bound, refl))))))

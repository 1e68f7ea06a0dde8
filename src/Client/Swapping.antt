-- ===== src/Client/Swapping.antt =====
-- index.mjs: what `swap` may send.
use oncm.Prelude.{
  ℕ, ◌≡◌, refl, sym, ap, ◌∙◌, ok-injective, true, Option, none, some, Result, ok, throw,
}
use oncm.Prelude.Int.{ℤ, pos}
use oncm.Market.SwapLimits.{positive_uint, positive_uint-ok, fix_limits, fix_limits-Bound, World}
use oncm.Client.Chain.{Action, Session, Node, Config, no_answer}
use oncm.Client.Operations.{SwapRequest, swapping, ask_swap, swap_tokens, swaps}
use oncm.Client.Steps.{
  Keeps, Keeps-then, Keeps-read, Keeps-done, Keeps-fail, Keeps-check, Keeps-some, Keeps-ensure,
  Keeps-send, Keeps-address, Keeps-permit, Keeps-after, Yields, yields_read, yields_some,
  yields_then,
}
use oncm.Client.Allowed.{Told}
use oncm.Client.Pools.{Fine}

module _ (node : Node) (config : Config) where
  module _ {P : Action → Type 0} where
    swapping-Keeps : {A : Type 0} (r : Result _ A) → Keeps node config P (swapping r)
    unfolding swapping
    swapping-Keeps (throw e) = Keeps-fail _
    swapping-Keeps (ok a) = Keeps-done

  swapping-Yields : {A : Type 0} (r : Result _ A) → Yields (swapping r) (λ a. r ≡ ok a)
  unfolding swapping
  swapping-Yields (throw e) = record { yields = λ s a h. cc }
  swapping-Yields (ok b) = record { yields = λ s a h. ap (λ x. ok x) (ok-injective h) }

  abbrev Answered : SwapRequest → ℕ → Option (ℤ × ℤ) → ℕ → Type 0
  Answered r input (some limits) out = Unit
  Answered r input none out =
      (t : Session) × (user : ℕ) × (node.query_swap t r.pool r.token_in r.token_out input user
        ≡ some out)

  ask_swap-Keeps :
      (P : Action → Type 0) (r : SwapRequest) (input : ℕ) (given : Option (ℤ × ℤ))
      → Keeps node config P (ask_swap node config r input given)
  unfolding ask_swap
  ask_swap-Keeps P r input (some limits) = Keeps-done
  ask_swap-Keeps P r input none =
      Keeps-then Keeps-address (λ user. Keeps-then (Keeps-read _) (λ answer. Keeps-some _ answer))

  ask_swap-Yields :
      (r : SwapRequest) (input : ℕ) (given : Option (ℤ × ℤ))
      → Yields (ask_swap node config r input given) (Answered r input given)
  unfolding ask_swap
  ask_swap-Yields r input (some limits) = record { yields = λ s a h. tt }
  ask_swap-Yields r input none =
      yields_then (λ user. Unit) (Answered r input none) (record { yields = λ s a h. tt })
        (λ user _.
          yields_then
            (λ answer.
              (t : Session) × (answer ≡ node.query_swap t r.pool r.token_in r.token_out input user))
            (Answered r input none) (yields_read _)
            (λ answer (t, e). record {
              yields = λ s out h. (t, user, sym e ∙ (yields_some no_answer answer).yields s out h);
            }))

  Told-of :
      (r : SwapRequest) (input : ℕ) (given : Option (ℤ × ℤ)) (now out : ℕ) (w : World)
      → ((s : Session) × (now ≡ node.timestamp s))
      → Answered r input given out
      → w.now ≡ pos now
      → w.quote ≡ pos out
      → Told node r input given w
  Told-of r input (some limits) now out w h a x y = tt
  Told-of r input none now out w (s, e) (t, user, answer) x y =
      (s, t, user, out, rw e at x, y, answer)

  pub swap_tokens-Fine : (r : SwapRequest) → Fine node config (swaps r) (swap_tokens node config r)
  unfolding swap_tokens
  swap_tokens-Fine r = Keeps-then Keeps-ensure (λ _.
      Keeps-after (λ input. positive_uint r.swap.amount ≡ ok input) (swapping-Keeps _)
        (swapping-Yields _)
        (λ input amount.
          Keeps-after (λ now. (s : Session) × (now ≡ node.timestamp s)) (Keeps-read _)
            (yields_read _)
            (λ now clock.
              Keeps-after (Answered r input r.swap.limits) (ask_swap-Keeps _ r input r.swap.limits)
                (ask_swap-Yields r input r.swap.limits)
                (λ out answered.
                  let w : World = record { now = pos now; quote = pos out; approves = true } in
                  Keeps-after (λ fixed. (fix_limits w r.swap w.now r.swap.limits).1 ≡ ok fixed)
                    (swapping-Keeps _) (swapping-Yields _)
                    (λ fixed is_fixed.
                      let spent = (positive_uint-ok r.swap.amount amount).0 in
                      Keeps-then (Keeps-check _ _) (λ _.
                        Keeps-then
                          (Keeps-permit r.token_in input (refl, refl, spent)
                            (λ s. (refl, (refl, refl, s, refl))))
                          (λ _. Keeps-send _ (
                            refl,
                            refl,
                            refl,
                            spent,
                            w,
                            Told-of r input r.swap.limits now out w clock answered refl refl,
                            fix_limits-Bound w r.swap r.swap.limits is_fixed,
                          ))))))))

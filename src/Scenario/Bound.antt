-- ===== src/Scenario/Bound.antt =====
-- settlement-scenario.mjs: what is shown belongs to the wallet and the pool that are selected.
use oncm.Prelude.{
  ℕ, ◌≡◌, refl, ap, inl, inr, Bool, true, false, not, ◌&&◌, ◌==◌, Option, none, some, ==_iff,
  Result, ok, throw, Bool-cases, arith, subst, sym,
}
use oncm.Scenario.{
  Context, is_same_option, is_same_context, Stress, Scenario, scenario_matches, State, initial,
  clear, set_context, dispose, Load, is_current, begin_load, on_result, Step, sets, clears,
  disposes, begins, settles, Reach, here, next, Error,
}

same_option-eq : (a b : Option ℕ) → is_same_option a b ≡ true → a ≡ b
same_option-eq none none h = refl
same_option-eq (some a) (some b) h = ap (λ n. some n) ((==_iff a b).0 h)
same_option-eq none (some b) h = cc
same_option-eq (some a) none h = cc

both : (a b : Bool) → a && b ≡ true → (a ≡ true) × (b ≡ true)
both true b h = (refl, h)
both false b h = cc

same_context-eq : (a b : Context) → is_same_context a b ≡ true → a ≡ b
unfolding is_same_context
same_context-eq a b h =
    let (h1, chain) = both _ (is_same_option a.chain_id b.chain_id) h in
    let (h2, pool) = both _ (is_same_option a.pool b.pool) h1 in
    let (client, account) = both _ (is_same_option a.account b.account) h2 in
    λ i. record {
      client = same_option-eq a.client b.client client i;
      account = same_option-eq a.account b.account account i;
      pool = same_option-eq a.pool b.pool pool i;
      chain_id = same_option-eq a.chain_id b.chain_id chain i;
    }

-- What is held is what is shown, and belongs to the context.
abbrev Belongs : Option Scenario → Context → Type 0
Belongs none c = Unit
Belongs (some r) c = scenario_matches (some r) c ≡ true

abbrev pub IsBound : State → Type 0
IsBound s = (s.disposed ≡ false → s.shown ≡ s.value) × Belongs s.value s.context

clear-IsBound : (s : State) → IsBound (clear s)
unfolding clear
clear-IsBound s = (λ h. rw h refl, tt)

set_context-IsBound : (c : Context) (s : State) → IsBound s → IsBound (set_context c s)
unfolding set_context
set_context-IsBound c s v = elim (Bool-cases (is_same_context s.context c)) [
  | inl e ↦ rw (e, set_context) v
  | inr e ↦ rw (e, set_context) (clear-IsBound (record s { context = c }))
]

dispose-IsBound : (s : State) → IsBound (dispose s)
unfolding dispose
dispose-IsBound s = (λ h. cc h, tt)

begin_load-state : (s : State) → (begin_load s).0 ≡ clear s
unfolding begin_load
begin_load-state s = ground arith

current-eq : (l : Load) (s : State) → is_current l s ≡ true → s.context ≡ l.captured
unfolding is_current
current-eq l s h =
    same_context-eq s.context l.captured
      (both (not s.disposed && l.ticket == s.epoch) (is_same_context s.context l.captured) h).1

on_result-IsBound :
    (l : Load) (answer : Result Error Stress) (s : State)
    → IsBound s
    → IsBound (on_result l answer s).0
unfolding on_result
on_result-IsBound l (throw e) s v = v
on_result-IsBound l (ok stress) s v = elim (Bool-cases (is_current l s)) [
  | inr late ↦ rw (late, on_result) v
  | inl on_time ↦
      let bound : Scenario = record { stress = stress; binding = l.captured } in
      elim (Bool-cases (scenario_matches (some bound) l.captured)) [
        | inr other ↦ rw (on_time, other, on_result) v
        | inl same ↦
            rw (on_time, same, on_result)
              (
                λ h. refl,
                subst (λ c. scenario_matches (some bound) c ≡ true) (sym (current-eq l s on_time))
                    same,
              )
      ]
]

Step-IsBound : {s t : State} → Step s t → IsBound s → IsBound t
Step-IsBound {s} (sets c) v = set_context-IsBound c s v
Step-IsBound {s} clears v = clear-IsBound s
Step-IsBound {s} disposes v = dispose-IsBound s
Step-IsBound {s} begins v = subst IsBound (sym (begin_load-state s)) (clear-IsBound s)
Step-IsBound {s} (settles l network earlier answer h) v = on_result-IsBound l answer s v

-- Whatever wallets and pools are selected while loads are under way, and in whatever order these end, what is shown until the
-- reader is disposed of is what it holds, and that is of the account, the pool, the client and the chain that are selected.
pub Reach-IsBound : {s : State} → Reach initial s → IsBound s
Reach-IsBound here = (λ h. refl, tt)
Reach-IsBound (next r st) = Step-IsBound st (Reach-IsBound r)

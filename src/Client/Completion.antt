-- ===== src/Client/Completion.antt =====
-- index.mjs: an operation that ends without an error has sent its transaction.
use oncm.Prelude.{
  ℕ, ◌≡◌, refl, inl, inr, Bool, true, false, List, [], ◌∷◌, All, subst, Result, ok, throw,
}
use oncm.Prelude.Acting.{done, continue_with, ◌>>=◌}
use oncm.Client.Chain.{
  Error, Action, erc20_approve, permit2_approve, Sent, Session, Node, Config, Act, transact,
  send_when, send,
}
use oncm.Client.Operations.{
  Command, splits, merges, redeems, initializes, joins, exits, swaps, resolves, registers, claims,
  proves, derives, creates_pool, collects, distributes, run,
}
use oncm.Client.Steps.{Receipt-cases, Proper, AllProper}
use oncm.Client.Allowed.{Allowed}
use oncm.Client.Safety.{run-AllProper}

abbrev pub is_approval : Action → Bool
is_approval (erc20_approve t s a) = true
is_approval (permit2_approve t s a e) = true
is_approval _ = false

-- The latest transaction is not an approval.
abbrev pub HasSent : Session → Type 0
HasSent s =
    (x : Sent) × (rest : List Sent) × (s.sent ≡ x ∷ rest)
    × (is_approval x.action ≡ false)
    × (x.confirmed ≡ true)

record Ends (m : Act (Unit {0})) : Type 0 where
  ends : (s : Session) → (m s).1 ≡ ok tt → HasSent (m s).0

Ends-continue :
    {A : Type 0} (f : A → Act (Unit {0})) (p : Session × Result Error A)
    → ((a : A) → Ends (f a))
    → (continue_with f p).1 ≡ ok tt
    → HasSent (continue_with f p).0
Ends-continue f (s, throw e) k h = cc
Ends-continue f (s, ok a) k h = (k a).ends s h

Ends-then :
    {A : Type 0} (m : Act A) {f : A → Act (Unit {0})} → ((a : A) → Ends (f a)) → Ends (m >>= f)
unfolding ◌>>=◌
Ends-then m {f} k = record { ends = λ s h. Ends-continue f (m s) k h }

module _ (node : Node) (config : Config) where
  Ends-transact : (t : ℕ) (a : Action) → is_approval a ≡ false → Ends (transact node config t a)
  unfolding transact
  Ends-transact t a n = record {
    ends = λ s h. elim (Receipt-cases (node.receipt s a)) [
      | inl e ↦ cc (rw (e, transact) at h)
      | inr (inl e) ↦ cc (rw (e, transact) at h)
      | inr (inr e) ↦
          rw (e, transact) (record { at = t; action = a; confirmed = true }, s.sent, refl, n, refl)
    ];
  }

  Ends-send_when :
      (test : Act (Unit {0})) (a : Action)
      → is_approval a ≡ false
      → Ends (send_when node config test a)
  unfolding send_when
  Ends-send_when test a n = Ends-then _ (λ t. Ends-then _ (λ _. Ends-transact t a n))

  Ends-send : (a : Action) → is_approval a ≡ false → Ends (send node config a)
  unfolding send
  Ends-send a n = Ends-send_when (done tt) a n

  run-Ends : (command : Command) → Ends (run node config command)
  unfolding run
  run-Ends (splits id n) = Ends-then _ (λ _. Ends-send _ refl)
  run-Ends (merges id n) = Ends-then _ (λ _. Ends-then _ (λ _. Ends-then _ (λ _. Ends-send _ refl)))
  run-Ends (redeems id y n) =
      Ends-then _ (λ _. Ends-then _ (λ _. Ends-then _ (λ _. Ends-send _ refl)))
  run-Ends (initializes pool amounts q) = Ends-then _ (λ _. Ends-then _ (λ _. Ends-then _ (λ _.
      Ends-then _ (λ _. Ends-then _ (λ _. Ends-then _ (λ _.
        Ends-then _
          (λ _. Ends-then _ (λ _. Ends-then _ (λ _. Ends-then _ (λ _. Ends-send _ refl))))))))))
  run-Ends (joins pool bpt slippage q) = Ends-then _ (λ _. Ends-then _ (λ _.
      Ends-then _ (λ _. Ends-then _ (λ _. Ends-then _ (λ _. Ends-then _ (λ _. Ends-send _ refl))))))
  run-Ends (exits pool bpt slippage q) = Ends-then _ (λ _. Ends-then _ (λ _.
      Ends-then _ (λ _. Ends-then _ (λ _. Ends-then _ (λ _. Ends-then _ (λ _. Ends-send _ refl))))))
  run-Ends (swaps r) = Ends-then _ (λ _. Ends-then _ (λ _. Ends-then _ (λ _.
      Ends-then _
        (λ _. Ends-then _ (λ _. Ends-then _ (λ _. Ends-then _ (λ _. Ends-send _ refl)))))))
  run-Ends (resolves id) = Ends-then _ (λ _. Ends-then _ (λ _. Ends-send_when _ _ refl))
  run-Ends (registers g p t m c) = Ends-send_when _ _ refl
  run-Ends (claims token) =
      Ends-then _ (λ _. Ends-then _ (λ _. Ends-then _ (λ _. Ends-send _ refl)))
  run-Ends (proves id o e) = Ends-send _ refl
  run-Ends (derives id k x d t) = Ends-send _ refl
  run-Ends (creates_pool id side w f salt) = Ends-send _ refl
  run-Ends (collects pool) = Ends-send _ refl
  run-Ends (distributes epoch token) = Ends-send _ refl

first-Proper :
    (node : Node) (config : Config) (P : Action → Type 0) (s : Session) (x : Sent)
    (rest : List Sent)
    → s.sent ≡ x ∷ rest
    → AllProper node config P s
    → Proper node config P x
first-Proper node config P s x rest e h = (subst (All (Proper node config P)) e h).0

-- A command that ends without an error has, as its last transaction, a confirmed call that it allows and that is no approval: the one that
-- the command is for, with its arguments and the limits, the amount or the minimum that it is bound to, sent after a check that found the
-- network of the client.
pub run-Completes :
    (node : Node) (config : Config) (command : Command) (moment : ℕ)
    → (run node config command (record { moment = moment; sent = [] })).1 ≡ ok tt
    → (x : Sent) × (rest : List Sent) × ((run node config command
          (record { moment = moment; sent = [] })).0.sent
        ≡ x ∷ rest)
      × (is_approval x.action ≡ false)
      × (x.confirmed ≡ true)
      × (node.chain_id x.at ≡ 31373)
      × Allowed node config command x.action
run-Completes node config command moment h =
    let start : Session = record { moment = moment; sent = [] } in
    let (x, rest, e, n, sure) = (run-Ends node config command).ends start h in
    let (checked, allowed) =
      first-Proper node config (Allowed node config command) (run node config command start).0 x
        rest e (run-AllProper node config command moment) in
    (x, rest, e, n, sure, checked, allowed)

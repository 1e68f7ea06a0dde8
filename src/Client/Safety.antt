-- ===== src/Client/Safety.antt =====
-- index.mjs: what an operation of the client may send.
use oncm.Prelude.{ℕ, ◌≡◌, refl, ◌⊎◌, inl, inr, not, ◌==◌, []}
use oncm.Client.Chain.{Action, Session, Node, Config, Attempt, Derived}
use oncm.Client.Quotes.{readiness_of, after_attempt}
use oncm.Client.Operations.{
  is_ready, split, merge, approve_some, redeem, still_current, resolve_derived, register, claim,
  Command, splits, merges, redeems, initializes, joins, exits, swaps, resolves, registers, claims,
  proves, derives, creates_pool, collects, distributes, run,
}
use oncm.Client.Steps.{
  yields_address, AllProper, Keeps, Keeps-then, Keeps-read, Keeps-done, Keeps-fail, Keeps-check,
  Keeps-if, Keeps-ensure, Keeps-send_when, Keeps-send, Keeps-address, Keeps-approve, Keeps-after,
  yields_read,
}
use oncm.Client.Allowed.{OwnAddress, Allowed}
use oncm.Client.Pools.{Fine, initialize_pool-Fine, join_pool-Fine, exit_pool-Fine}
use oncm.Client.Swapping.{swap_tokens-Fine}

module _ (node : Node) (config : Config) where
  split-Fine : (id n : ℕ) → Fine node config (splits id n) (split node config id n)
  unfolding split
  split-Fine id n =
      Keeps-then (Keeps-approve _ _ n (refl, refl, refl)) (λ _. Keeps-send _ (refl, refl))

  merge-Fine : (id n : ℕ) → Fine node config (merges id n) (merge node config id n)
  unfolding merge
  merge-Fine id n =
      Keeps-after (λ tokens. (s : Session) × (tokens ≡ node.outcome_tokens s id)) (Keeps-read _)
        (yields_read _)
        (λ tokens (s, e). Keeps-then (Keeps-approve _ _ n (refl, refl, s, inl (rw e refl))) (λ _.
          Keeps-then (Keeps-approve _ _ n (refl, refl, s, inr (rw e refl)))
            (λ _. Keeps-send _ (refl, refl))))

  approve_some-Fine :
      (id y n token a : ℕ) (s : Session)
      → ((token ≡ (node.outcome_tokens s id).0) × (a ≡ y))
        ⊎ ((token ≡ (node.outcome_tokens s id).1) × (a ≡ n))
      → Fine node config (redeems id y n) (approve_some node config token a)
  unfolding approve_some
  approve_some-Fine id y n token a s h =
      Keeps-if (a == 0) Keeps-done (Keeps-approve token _ a (refl, s, h))

  redeem-Fine : (id y n : ℕ) → Fine node config (redeems id y n) (redeem node config id y n)
  unfolding redeem
  redeem-Fine id y n =
      Keeps-after (λ tokens. (s : Session) × (tokens ≡ node.outcome_tokens s id)) (Keeps-read _)
        (yields_read _)
        (λ tokens (s, e).
          Keeps-then (approve_some-Fine id y n tokens.0 y s (inl (rw e refl, refl))) (λ _.
            Keeps-then (approve_some-Fine id y n tokens.1 n s (inr (rw e refl, refl)))
              (λ _. Keeps-send _ (refl, refl, refl))))

  still_current-Keeps : (P : Action → Type 0) → Keeps node config P (still_current node config)
  unfolding still_current
  still_current-Keeps P = Keeps-then (Keeps-read _) (λ b. Keeps-check b _)

  after_attempt-Keeps : (P : Action → Type 0) (a : _) → Keeps node config P (after_attempt a)
  unfolding after_attempt
  after_attempt-Keeps P Attempt.passes = Keeps-done
  after_attempt-Keeps P Attempt.not_resolvable_yet = Keeps-done
  after_attempt-Keeps P Attempt.already_resolved = Keeps-done
  after_attempt-Keeps P Attempt.unknown_statement = Keeps-done
  after_attempt-Keeps P Attempt.another_error = Keeps-fail _

  readiness-Keeps : (P : Action → Type 0) (d : Derived) → Keeps node config P (readiness_of d)
  unfolding readiness_of
  readiness-Keeps P d = Keeps-if (not d.has_author) Keeps-done (
      Keeps-if (not (d.outcome == 0)) Keeps-done
        (Keeps-if (d.kind == 0) Keeps-done (after_attempt-Keeps P d.attempt)))

  resolve_derived-Fine : (id : ℕ) → Fine node config (resolves id) (resolve_derived node config id)
  unfolding resolve_derived
  resolve_derived-Fine id =
      Keeps-then
        (Keeps-then Keeps-ensure
          (λ _. Keeps-then (Keeps-read _) (λ block. readiness-Keeps _ (node.derived block id))))
        (λ state.
          Keeps-then (Keeps-check (is_ready state) _)
            (λ _. Keeps-send_when _ (still_current-Keeps _) refl))

  claim-Fine : (token : ℕ) → Fine node config (claims token) (claim node config token)
  unfolding claim
  claim-Fine token =
      Keeps-after (OwnAddress node) Keeps-address (yields_address node config) (λ user mine.
        Keeps-after (λ balance. (s : Session) × (balance ≡ node.claimable s user token))
          (Keeps-read _) (yields_read _)
          (λ balance (s, e).
            Keeps-then (Keeps-check _ _) (λ _. Keeps-send _ (refl, refl, mine, s, e))))

  register-Fine :
      (g p t m c : ℕ) → Fine node config (registers g p t m c) (register node config g p t m c)
  unfolding register
  register-Fine g p t m c = Keeps-send_when _ (still_current-Keeps _) (refl, refl, refl, refl, refl)

  run-Fine : (command : Command) → Fine node config command (run node config command)
  unfolding run
  run-Fine (splits id n) = split-Fine id n
  run-Fine (merges id n) = merge-Fine id n
  run-Fine (redeems id y n) = redeem-Fine id y n
  run-Fine (initializes pool amounts q) = initialize_pool-Fine node config pool amounts q
  run-Fine (joins pool bpt slippage q) = join_pool-Fine node config pool bpt slippage q
  run-Fine (exits pool bpt slippage q) = exit_pool-Fine node config pool bpt slippage q
  run-Fine (swaps r) = swap_tokens-Fine node config r
  run-Fine (resolves id) = resolve_derived-Fine id
  run-Fine (registers g p t m c) = register-Fine g p t m c
  run-Fine (claims token) = claim-Fine token
  run-Fine (proves id o e) = Keeps-send _ (refl, refl, refl)
  run-Fine (derives id k x d t) = Keeps-send _ (refl, refl, refl, refl, refl)
  run-Fine (creates_pool id side w f salt) = Keeps-send _ (refl, refl, refl, refl, refl)
  run-Fine (collects pool) = Keeps-send _ (refl, refl)
  run-Fine (distributes epoch token) = Keeps-send _ (refl, refl)

-- However a command ends, each transaction that it sends, be it confirmed or not, was preceded by a check that found the network of the
-- client. It is the call that the command is for, or an approval to the contract that spends, for what the call spends, or, by permit2, for
-- the most that it can hold and thirty days. A join and an exit have the limits, and an initialization the least BPT, of a quote that fits
-- the wallet, the pool and its tokens: the one given, or a new one of the node; a swap is bound to the limits given, or to those of a quote
-- of the node; a claim is of what the node said is claimable.
pub run-AllProper :
    (node : Node) (config : Config) (command : Command) (moment : ℕ)
    → AllProper node config
        (Allowed node config command)
        (run node config command (record { moment = moment; sent = [] })).0
run-AllProper node config command moment =
    (run-Fine node config command).keeps (record { moment = moment; sent = [] }) tt

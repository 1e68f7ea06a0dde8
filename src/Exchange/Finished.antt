-- ===== src/Exchange/Finished.antt =====
-- index.mjs: however a function of `ExchangeSDK` ends, what it has sent and reported.
use oncm.Prelude.{
  ℕ, ◌≡◌, refl, sym, ap, ◌∙◌, inl, inr, true, false, not, String, List, [], ◌==◌, ==_iff,
  if◌then◌else◌, Bool-cases, arith,
}
use oncm.Prelude.Sort.{sort, sort-perm, sort-IsSorted}
use oncm.Prelude.Acting
use oncm.Prelude.Acting.{Ends, ◌>>=◌, check, Ensures-then, Ensures-given}
use oncm.Exchange.Chain.{
  Error, changed, no_block, invalid_outcome, Event, Session, Node, Config, read,
}
use oncm.Exchange.Markets.{
  Market, Readiness, is_ready, evaluated, read_derived_readiness, draft_current, resolve_derived,
}
use oncm.Exchange.Proposals.{Share, is_before, delegate, form_current, propose_allocation, withdraw}
use oncm.Exchange.Commands.{
  Command, creates_math, creates_operator, creates_derived, splits, merges, redeems, trades, adds,
  removes, proves, resolves, arbitrages, delegates, proposes, cancels, queues, executes, votes,
  allocates, consents, applies, collects, withdraws, distributes, run,
}
use oncm.Exchange.Quiet.{
  Quiet, get_address-Quiet, Quiet-read, Quiet-then, Quiet-done, Quiet-fail, Quiet-check, Quiet-some,
  Quiet-weaken,
}
use oncm.Exchange.Recorded.{
  nothing, Stopped, Finished, quietly, tx-Finishing, tx-at, tx_plain-Finishing, Quiet-Finishing,
}
use oncm.Exchange.Meant.{Approves, Evaluated, StillCurrent, Meant}
use oncm.Exchange.Runs.{
  Fine, split-Fine, merge-Fine, redeem-Fine, trade-Fine, add_liquidity-Fine, remove_liquidity-Fine,
  arbitrage-Fine,
}

module _ (node : Node) (c : Config) where
  current-Quiet :
      {log : List Event} (e : Error)
      → Quiet log (λ _. StillCurrent node c log) (read node.draft_is_current >>= λ b. check b e)
  current-Quiet e =
      Quiet-then (Quiet-read node.draft_is_current)
        (λ b (s, same, q). Quiet-weaken (λ _ h. (s, same, (sym q) ∙ h)) (Quiet-check b e))

  -- A readiness by which the statement may be resolved is the registry's.
  abbrev IsTrue : List Event → ℕ → Readiness → Type 0
  IsTrue log id r = is_ready r ≡ true → Evaluated node c log id

  evaluated-Quiet :
      {log : List Event} (id : ℕ) (block : Session)
      → block.log ≡ log
      → (node.statement block id).is_known ≡ true
      → (node.statement block id).outcome ≡ 0
      → Quiet log (IsTrue log id) (evaluated node c (node.derived_outcome block id))
  unfolding evaluated
  evaluated-Quiet id block e known open' =
      let o : ℕ = node.derived_outcome block id in
      elim (Bool-cases (o == 0)) [
        | inl z ↦ rw (z, evaluated) (Quiet-done (λ h. cc))
        | inr z ↦ elim (Bool-cases (o == 1)) [
          | inl one ↦
              rw (z, one, evaluated)
                (Quiet-done (λ h. (block, e, (known, open', inl ((==_iff o 1).0 one)))))
          | inr one ↦ elim (Bool-cases (o == 2)) [
            | inl two ↦
                rw (z, one, two, evaluated)
                  (Quiet-done (λ h. (block, e, (known, open', inr ((==_iff o 2).0 two)))))
            | inr two ↦ rw (z, one, two, evaluated) (Quiet-fail invalid_outcome)
          ]
        ]
      ]

  at_block :
      {log : List Event} (id : ℕ) (block : Session)
      → block.log ≡ log
      → Quiet log (IsTrue log id) (
          if not (node.statement block id).is_known
          then Acting.done Readiness.unknown
          else if not ((node.statement block id).outcome == 0)
          then Acting.done Readiness.resolved
          else if (node.statement block id).kind == 0
          then Acting.done Readiness.base
          else evaluated node c (node.derived_outcome block id))
  at_block id block e = elim (Bool-cases (node.statement block id).is_known) [
    | inr k ↦ rw k (Quiet-done (λ h. cc))
    | inl k ↦ elim (Bool-cases ((node.statement block id).outcome == 0)) [
      | inr o ↦ rw (k, o) (Quiet-done (λ h. cc))
      | inl o ↦ elim (Bool-cases ((node.statement block id).kind == 0)) [
        | inl b ↦ rw (k, o, b) (Quiet-done (λ h. cc))
        | inr b ↦
            rw (k, o, b)
              (evaluated-Quiet id block e k ((==_iff (node.statement block id).outcome 0).0 o))
      ]
    ]
  ]

  readiness-Quiet :
      {log : List Event} (id : ℕ) → Quiet log (IsTrue log id) (read_derived_readiness node c id)
  unfolding read_derived_readiness
  readiness-Quiet id = Quiet-then (Quiet-read node.block_number) (λ number _.
      Quiet-then (Quiet-some no_block number) (λ _ _.
        Quiet-then (Quiet-read (λ s. s))
          (λ block (s, e, q). at_block id block (ap (λ (u : Session). u.log) q ∙ e))))

module _ (node : Node) (c : Config) (keccak : String → ℕ) where
  resolve_derived-Fine : (m : Market) → Fine node c keccak (resolves m) (resolve_derived node c m)
  unfolding resolve_derived draft_current
  resolve_derived-Fine m =
      Quiet-Finishing node c _ (λ log. readiness-Quiet node c m.id)
        (λ log v state known. Ensures-then (quietly node c _ v (current-Quiet node c changed)) (λ _.
          Ensures-given (λ _.
            Ensures-then (quietly node c _ v (Quiet-check (is_ready state) Error.not_ready)) (λ _.
              Ensures-given (λ ready. tx-at node c _ _ log v (
                Quiet-then (current-Quiet node c changed)
                  (λ _ current. Quiet-done (refl, current, known ready))))))))

  delegate-Fine : Fine node c keccak delegates (delegate node c keccak)
  unfolding delegate
  delegate-Fine =
      tx-Finishing node c _ _
        (λ log. Quiet-then (get_address-Quiet node c) (λ who user. Quiet-done (who, user, refl)))

  withdraw-Fine : (asset : ℕ) → Fine node c keccak (withdraws asset) (withdraw node c keccak asset)
  unfolding withdraw
  withdraw-Fine asset =
      tx-Finishing node c _ _
        (λ log. Quiet-then (get_address-Quiet node c) (λ who user. Quiet-done (who, user, refl)))

  address_trans :
      (a b d : Share) → is_before a b ≡ true → is_before b d ≡ true → is_before a d ≡ true
  address_trans a b d h k = ground arith

  address_total : (a b : Share) → is_before a b ≡ false → is_before b a ≡ true
  address_total a b h = ground arith

  allocation-Fine :
      (rows : List Share)
      → Fine node c keccak (allocates rows) (propose_allocation node c keccak rows)
  unfolding propose_allocation form_current
  allocation-Fine rows = tx-Finishing node c _ _ (λ log.
      Quiet-then (current-Quiet node c Error.form_changed) (λ _ current. Quiet-done (
        sort is_before rows,
        sort-perm is_before rows,
        sort-IsSorted is_before address_trans address_total rows,
        refl,
        current,
      )))

  run-Fine : (command : Command) → Fine node c keccak command (run node c keccak command)
  unfolding run
  run-Fine (creates_math g p m e) = tx_plain-Finishing node c _ _ _ (λ log. refl)
  run-Fine (creates_operator o a m) = tx_plain-Finishing node c _ _ _ (λ log. refl)
  run-Fine (creates_derived k d u t m) = tx_plain-Finishing node c _ _ _ (λ log. refl)
  run-Fine (splits m n) = split-Fine node c keccak m n
  run-Fine (merges m n) = merge-Fine node c keccak m n
  run-Fine (redeems m side n) = redeem-Fine node c keccak m side n
  run-Fine (trades m side buy n least) = trade-Fine node c keccak m side buy n least
  run-Fine (adds m side t o s) = add_liquidity-Fine node c keccak m side t o s
  run-Fine (removes m side n t o) = remove_liquidity-Fine node c keccak m side n t o
  run-Fine (proves m o e) = tx_plain-Finishing node c _ _ _ (λ log. refl)
  run-Fine (resolves m) = resolve_derived-Fine m
  run-Fine (arbitrages m n least) = arbitrage-Fine node c keccak m n least
  run-Fine delegates = delegate-Fine
  run-Fine (proposes p) = tx_plain-Finishing node c _ _ _ (λ log. refl)
  run-Fine (cancels p) = tx_plain-Finishing node c _ _ _ (λ log. refl)
  run-Fine (queues p) = tx_plain-Finishing node c _ _ _ (λ log. refl)
  run-Fine (executes p) = tx_plain-Finishing node c _ _ _ (λ log. refl)
  run-Fine (votes id support) = tx_plain-Finishing node c _ _ _ (λ log. refl)
  run-Fine (allocates rows) = allocation-Fine rows
  run-Fine (consents id value) = tx_plain-Finishing node c _ _ _ (λ log. refl)
  run-Fine (applies id) = tx_plain-Finishing node c _ _ _ (λ log. refl)
  run-Fine (collects asset) = tx_plain-Finishing node c _ _ _ (λ log. refl)
  run-Fine (withdraws asset) = withdraw-Fine asset
  run-Fine (distributes epoch asset) = tx_plain-Finishing node c _ _ _ (λ log. refl)

-- However a function of the client ends, its transactions were sent one at a time, each after a check that found the network and a
-- wallet, each reported, and all but the last confirmed before the next: first approvals that were needed, of what the call spends, to
-- the contract that spends it, then the call that the function is for. Without an error that call was sent and confirmed; with one it was
-- not sent, or it is the last that was and is not confirmed.
pub run-Recorded :
    (node : Node) (config : Config) (keccak : String → ℕ) (command : Command) (moment : ℕ)
    → Ends
        (λ s.
          Stopped node config
            (Approves node config command)
            (Meant node config keccak command)
            s.log)
        (λ _ s.
          Finished node config
            (Approves node config command)
            (Meant node config keccak command)
            s.log)
        (run node config keccak command (record { moment = moment; log = [] }))
run-Recorded node config keccak command moment =
    (run-Fine node config keccak command).ensures (record { moment = moment; log = [] }) nothing

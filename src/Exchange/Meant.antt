-- ===== src/Exchange/Meant.antt =====
-- index.mjs: what each function of `ExchangeSDK` is meant to send, by the log at that moment.
use mathlib.Core.List.{Perm}
use oncm.Prelude.{ℕ, ◌≡◌, ◌⊎◌, true, none, some, String, List, [], ◌∷◌, map, get_elem?}
use oncm.Prelude.Sort.{IsSorted}
use oncm.Exchange.Chain.{
  Action, erc20_approve, protocol_create_math, protocol_create_operator, protocol_create_derived,
  router_split, router_merge, router_redeem, v2_swap, v2_add, v2_remove, protocol_resolve_proof,
  protocol_resolve_derived, arbitrage_execute, token_delegate, governor_propose, governor_cancel,
  governor_vote, governor_queue, governor_execute, allocation_propose, allocation_consent,
  allocation_apply, allocation_collect, allocation_distribute, warehouse_withdraw, Event, Call,
  Node, Config,
}
use oncm.Exchange.Markets.{outcome_token_of}
use oncm.Exchange.Trades.{path_of, minimum, slippage_or}
use oncm.Exchange.Proposals.{Share, is_before}
use oncm.Exchange.Commands.{
  Command, creates_math, creates_operator, creates_derived, splits, merges, redeems, trades, adds,
  removes, proves, resolves, arbitrages, delegates, proposes, cancels, queues, executes, votes,
  allocates, consents, applies, collects, withdraws, distributes,
}
use oncm.Exchange.Quiet.{Then, Needed, IsUser, IsDeadline, IsEstimated}

module _ (node : Node) (c : Config) where
  -- An approval that is needed at that moment.
  abbrev pub IsApproval : List Event → Call → ℕ → ℕ → ℕ → Type 0
  IsApproval log call token spender amount =
      (call ≡ (erc20_approve token spender amount, none)) × Needed node log token spender amount

  -- The approvals: of what the call spends, to the contract that spends it.
  abbrev pub Approves : Command → List Event → Call → Type 0
  Approves (splits m n) log call = IsApproval log call c.token c.router n
  Approves (merges m n) log call =
      IsApproval log call m.yes_token c.router n ⊎ IsApproval log call m.no_token c.router n
  Approves (redeems m side n) log call = IsApproval log call (outcome_token_of m side) c.router n
  Approves (trades m side buy n least) log call =
      IsApproval log call (path_of c m side buy).0 c.v2_router n
  Approves (adds m side t o s) log call =
      IsApproval log call (outcome_token_of m side) c.v2_router o
      ⊎ IsApproval log call c.token c.v2_router t
  Approves (removes m side n t o) log call =
      (pair : ℕ) × (get_elem? m.pairs side ≡ some pair) × IsApproval log call pair c.v2_router n
  Approves (arbitrages m n least) log call = IsApproval log call c.token c.arbitrage n
  Approves _ log call = ⊥

  -- A call to the router of the pairs: to the wallet's address, with a deadline and a limit on gas.
  abbrev pub Routed : List Event → Call → (ℕ → ℕ → Action) → Type 0
  Routed log call a =
      (to until : ℕ) × IsUser node log to
      × IsDeadline node log until
      × (call.0 ≡ a to until)
      × IsEstimated node log 20000 call

  -- The registry has evaluated a statement that it knows and that has no outcome.
  abbrev pub Evaluated : List Event → ℕ → Type 0
  Evaluated log id = Then log (λ s.
      ((node.statement s id).is_known ≡ true)
      × ((node.statement s id).outcome ≡ 0)
      × ((node.derived_outcome s id ≡ 1) ⊎ (node.derived_outcome s id ≡ 2)))

  -- the page's draft or form is the one that the function was called for
  abbrev pub StillCurrent : List Event → Type 0
  StillCurrent log = Then log (λ s. node.draft_is_current s ≡ true)

  abbrev pub Meant : (String → ℕ) → Command → List Event → Call → Type 0
  Meant k (creates_math g p m e) log call = call ≡ (protocol_create_math g p m e, none)
  Meant k (creates_operator o a m) log call = call ≡ (protocol_create_operator o a m, none)
  Meant k (creates_derived x d u t m) log call = call ≡ (protocol_create_derived x d u t m, none)
  Meant k (splits m n) log call = call ≡ (router_split c.token m.statement.market n, none)
  Meant k (merges m n) log call = call ≡ (router_merge c.token m.statement.market n, none)
  Meant k (redeems m side n) log call =
      call ≡ (router_redeem c.token m.statement.market (side ∷ []) (n ∷ []), none)
  Meant k (trades m side buy n least) log call =
      Routed log call (v2_swap n least (path_of c m side buy))
  Meant k (adds m side t o s) log call = Routed log call (
      v2_add c.token (outcome_token_of m side) t o (minimum t (slippage_or s))
        (minimum o (slippage_or s)))
  Meant k (removes m side n t o) log call =
      Routed log call (v2_remove c.token (outcome_token_of m side) n t o)
  Meant k (proves m o e) log call = call ≡ (protocol_resolve_proof m.id o e, none)
  Meant k (resolves m) log call =
      (call ≡ (protocol_resolve_derived m.id, none)) × StillCurrent log × Evaluated log m.id
  Meant k (arbitrages m n least) log call =
      (until : ℕ) × IsDeadline node log until
      × (call.0 ≡ arbitrage_execute m.id n least until)
      × IsEstimated node log 30000 call
  Meant k delegates log call = (who : ℕ) × IsUser node log who × (call ≡ (token_delegate who, none))
  Meant k (proposes p) log call =
      call ≡ (governor_propose p.targets p.values p.calldatas p.description, none)
  Meant k (cancels p) log call =
      call ≡ (governor_cancel p.targets p.values p.calldatas (k p.description), none)
  Meant k (queues p) log call =
      call ≡ (governor_queue p.targets p.values p.calldatas (k p.description), none)
  Meant k (executes p) log call =
      call ≡ (governor_execute p.targets p.values p.calldatas (k p.description), none)
  Meant k (votes id support) log call = call ≡ (governor_vote id support, none)
  Meant k (allocates rows) log call =
      (sorted : List Share) × Perm sorted rows
      × IsSorted is_before sorted
      × (call
          ≡ (allocation_propose (map (λ r. r.address) sorted) (map (λ r. r.share) sorted), none))
      × StillCurrent log
  Meant k (consents id value) log call = call ≡ (allocation_consent id value, none)
  Meant k (applies id) log call = call ≡ (allocation_apply id, none)
  Meant k (collects asset) log call = call ≡ (allocation_collect asset, none)
  Meant k (withdraws asset) log call =
      (who : ℕ) × IsUser node log who × (call ≡ (warehouse_withdraw who asset, none))
  Meant k (distributes epoch asset) log call = call ≡ (allocation_distribute epoch asset, none)

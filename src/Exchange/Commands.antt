-- ===== src/Exchange/Commands.antt =====
-- index.mjs: the functions of `ExchangeSDK` that send transactions, as commands, and what each is meant to send.
use oncm.Prelude.{ℕ, Bool, Option, String, List}
use oncm.Prelude.Int.{ℤ}
use oncm.Exchange.Chain.{Act, Node, Config}
use oncm.Exchange.Markets.{
  Market, create_math, create_operator, create_derived, resolve, resolve_derived,
}
use oncm.Exchange.Trades.{split, merge, redeem, trade, add_liquidity, remove_liquidity, arbitrage}
use oncm.Exchange.Proposals.{
  Proposal, Share, delegate, propose, cancel_proposal, vote, queue, execute, propose_allocation,
  consent, apply_allocation, collect, distribute, withdraw,
}

pub data Command : Type 0 where
  creates_math : ℕ → ℕ → String → ℕ → Command
  creates_operator : ℕ → ℕ → String → Command
  creates_derived : ℕ → ℕ → ℕ → ℕ → String → Command
  splits : Market → ℕ → Command
  merges : Market → ℕ → Command
  redeems : Market → ℕ → ℕ → Command
  trades : Market → ℕ → Bool → ℕ → ℕ → Command
  adds : Market → ℕ → ℕ → ℕ → Option ℤ → Command
  removes : Market → ℕ → ℕ → ℕ → ℕ → Command
  proves : Market → ℕ → ℕ → Command
  resolves : Market → Command
  arbitrages : Market → ℕ → ℤ → Command
  delegates : Command
  proposes cancels queues executes : Proposal → Command
  votes : ℕ → ℕ → Command
  allocates : List Share → Command
  consents : ℕ → Bool → Command
  applies collects withdraws : ℕ → Command
  distributes : ℕ → ℕ → Command

module _ (node : Node) (config : Config) (keccak : String → ℕ) where
  unfoldable pub run : Command → Act (Unit {0})
  unfolding create_math create_operator create_derived split merge redeem trade add_liquidity
      remove_liquidity resolve resolve_derived arbitrage delegate propose cancel_proposal queue
      execute vote propose_allocation consent apply_allocation collect withdraw distribute
  run (creates_math g p m c) = create_math node config g p m c
  run (creates_operator o a m) = create_operator node config o a m
  run (creates_derived k d u t m) = create_derived node config k d u t m
  run (splits m n) = split node config m n
  run (merges m n) = merge node config m n
  run (redeems m side n) = redeem node config m side n
  run (trades m side buy n least) = trade node config m side buy n least
  run (adds m side t o s) = add_liquidity node config m side t o s
  run (removes m side n t o) = remove_liquidity node config m side n t o
  run (proves m o c) = resolve node config m o c
  run (resolves m) = resolve_derived node config m
  run (arbitrages m n least) = arbitrage node config m n least
  run delegates = delegate node config keccak
  run (proposes p) = propose node config keccak p
  run (cancels p) = cancel_proposal node config keccak p
  run (queues p) = queue node config keccak p
  run (executes p) = execute node config keccak p
  run (votes id support) = vote node config keccak id support
  run (allocates rows) = propose_allocation node config keccak rows
  run (consents id value) = consent node config keccak id value
  run (applies id) = apply_allocation node config keccak id
  run (collects asset) = collect node config keccak asset
  run (withdraws asset) = withdraw node config keccak asset
  run (distributes epoch asset) = distribute node config keccak epoch asset

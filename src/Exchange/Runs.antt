-- ===== src/Exchange/Runs.antt =====
-- index.mjs: each function of `ExchangeSDK` sends what it is meant to send, after the approvals that it needs.
use oncm.Prelude.{ℕ, refl, inl, inr, Bool, Option, String, List, get_elem?}
use oncm.Prelude.Int.{ℤ}
use oncm.Prelude.Acting.{◌>>=◌, Ensures-then, Ensures-some, Ensures-given}
use oncm.Exchange.Chain.{Error, Action, Event, Act, Node, Config, get_address, deadline, v2_send}
use oncm.Exchange.Markets.{Market}
use oncm.Exchange.Trades.{
  split, merge, redeem, swap_call, trade, add_call, add_liquidity, remove_call, remove_liquidity,
  arbitrage_call, arbitrage,
}
use oncm.Exchange.Commands.{Command, splits, merges, redeems, trades, adds, removes, arbitrages}
use oncm.Exchange.Quiet.{
  Quiet, guard-Quiet, get_address-Quiet, deadline-Quiet, with_gas-Quiet, Quiet-then, Quiet-weaken,
}
use oncm.Exchange.Recorded.{
  between, Finishing, Quiet-Approving, tx-Finishing, tx_plain-Finishing, approve-Approving,
}
use oncm.Exchange.Meant.{Approves, Routed, Meant}

module _ (node : Node) (c : Config) (keccak : String → ℕ) where
  abbrev pub Fine : Command → Act (Unit {0}) → Type 0
  Fine command m = Finishing node c (Approves node c command) (Meant node c keccak command) m

  pub split-Fine : (m : Market) (n : ℕ) → Fine (splits m n) (split node c m n)
  unfolding split
  split-Fine m n = Ensures-then (Quiet-Approving node c _ (λ log. guard-Quiet node c)) (λ _.
      Ensures-then (approve-Approving node c _ _ _ n (λ log need. (refl, need)))
        (λ _. tx_plain-Finishing node c _ _ _ (λ log. refl)))

  pub merge-Fine : (m : Market) (n : ℕ) → Fine (merges m n) (merge node c m n)
  unfolding merge
  merge-Fine m n =
      Ensures-then (approve-Approving node c _ _ _ n (λ log need. inl (refl, need))) (λ _.
        Ensures-then (approve-Approving node c _ _ _ n (λ log need. inr (refl, need)))
          (λ _. tx_plain-Finishing node c _ _ _ (λ log. refl)))

  pub redeem-Fine : (m : Market) (side n : ℕ) → Fine (redeems m side n) (redeem node c m side n)
  unfolding redeem
  redeem-Fine m side n =
      Ensures-then (approve-Approving node c _ _ _ n (λ log need. (refl, need)))
        (λ _. tx_plain-Finishing node c _ _ _ (λ log. refl))

  Routed-Quiet :
      {log : List Event} (a : ℕ → ℕ → Action)
      → Quiet log
          (λ call. Routed node c log call a)
          (get_address node c >>= λ to. deadline node c >>= λ until. v2_send node c (a to until))
  unfolding v2_send
  Routed-Quiet a = Quiet-then (get_address-Quiet node c) (λ to user.
      Quiet-then (deadline-Quiet node c) (λ until late.
        Quiet-weaken (λ call (q, e). (to, until, user, late, q, e))
          (with_gas-Quiet node c 20000 (a to until))))

  pub trade-Fine :
      (m : Market) (side : ℕ) (buy : Bool) (n least : ℕ)
      → Fine (trades m side buy n least) (trade node c m side buy n least)
  unfolding trade swap_call
  trade-Fine m side buy n least =
      Ensures-then (approve-Approving node c _ _ _ n (λ log need. (refl, need)))
        (λ _. tx-Finishing node c _ _ (λ log. Routed-Quiet _))

  pub add_liquidity-Fine :
      (m : Market) (side t o : ℕ) (s : Option ℤ)
      → Fine (adds m side t o s) (add_liquidity node c m side t o s)
  unfolding add_liquidity add_call
  add_liquidity-Fine m side t o s =
      Ensures-then (approve-Approving node c _ _ _ o (λ log need. inl (refl, need))) (λ _.
        Ensures-then (approve-Approving node c _ _ _ t (λ log need. inr (refl, need)))
          (λ _. tx-Finishing node c _ _ (λ log. Routed-Quiet _)))

  pub remove_liquidity-Fine :
      (m : Market) (side n t o : ℕ)
      → Fine (removes m side n t o) (remove_liquidity node c m side n t o)
  unfolding remove_liquidity remove_call
  remove_liquidity-Fine m side n t o =
      Ensures-then (Ensures-some Error.no_pair (get_elem? m.pairs side) (λ s v. between v)) (λ pair.
        Ensures-given (λ is_pair.
          Ensures-then
            (approve-Approving node c _ pair _ n (λ log need. (pair, is_pair, (refl, need))))
            (λ _. tx-Finishing node c _ _ (λ log. Routed-Quiet _))))

  pub arbitrage-Fine :
      (m : Market) (n : ℕ) (least : ℤ) → Fine (arbitrages m n least) (arbitrage node c m n least)
  unfolding arbitrage arbitrage_call
  arbitrage-Fine m n least =
      Ensures-then (approve-Approving node c _ _ _ n (λ log need. (refl, need))) (λ _.
        tx-Finishing node c _ _ (λ log. Quiet-then (deadline-Quiet node c) (λ until late.
          Quiet-weaken (λ call (q, e). (until, late, q, e)) (with_gas-Quiet node c 30000 _))))

-- ===== src/Exchange/Quiet.antt =====
-- index.mjs: what only asks, and so leaves the log as it is.
use oncm.Prelude.{
  ℕ, ◌≡◌, refl, sym, ap, ◌∙◌, inl, inr, Bool, true, false, Option, none, some, List, ◌<◌, ◌==◌,
  ==_iff, Bool-cases, ◌+◌, ◌*◌, ◌/◌,
}
use oncm.Prelude.Acting.{
  done, fail, check, some_or, ◌>>=◌, Ensures, Ensures-then, Ensures-weaken, Ensures-given,
}
use oncm.Exchange.Chain.{
  Error, no_answer, Action, Event, Session, Act, Call, Node, Config, read, assert_current,
  check_chain, guard, get_address, with_gas, deadline,
}

-- `Q` of the value, and the log is `log` before and after.
abbrev pub Quiet : {A : Type 0} → List Event → (A → Type 0) → Act A → Type 0
Quiet log Q m = Ensures (λ s. s.log ≡ log) (λ s. s.log ≡ log) (λ a s. (s.log ≡ log) × Q a) m

-- A fact about the log at some moment.
abbrev pub Then : List Event → (Session → Type 0) → Type 0
Then log P = (s : Session) × (s.log ≡ log) × P s

module _ (node : Node) where
  abbrev pub IsUser : List Event → ℕ → Type 0
  IsUser log who = Then log (λ s. node.user s ≡ some who)

  -- 300 seconds after the latest block
  abbrev pub IsDeadline : List Event → ℕ → Type 0
  IsDeadline log until = Then log (λ s. until ≡ node.timestamp s + 300)

  -- The limit on gas is `more` above 130 % of an estimate for this call.
  abbrev pub IsEstimated : List Event → ℕ → Call → Type 0
  IsEstimated log more (a, gas) =
      Then log (λ s. (e : ℕ) × (node.estimate s a ≡ some e) × (gas ≡ some (e * 130 / 100 + more)))

  -- An approval is needed: an owner has allowed less.
  abbrev pub Needed : List Event → ℕ → ℕ → ℕ → Type 0
  Needed log token spender amount =
      Then log (λ s. (owner : ℕ) × (node.allowance s owner token spender < amount))

-- What the guard has found.
abbrev pub Checked : Node → Config → ℕ → Type 0
Checked node config t = (node.chain_id t ≡ 31372) × (config.has_signer ≡ true)

module _ {log : List Event} where
  pub Quiet-read :
      {A : Type 0} (f : Session → A) → Quiet log (λ a. Then log (λ s. a ≡ f s)) (read f)
  unfolding read
  Quiet-read f = record { ensures = λ s e. (e, (s, e, refl)) }

  pub Quiet-then :
      {A B : Type 0} {R : A → Type 0} {Q : B → Type 0} {m : Act A} {f : A → Act B}
      → Quiet log R m
      → ((a : A) → R a → Quiet log Q (f a))
      → Quiet log Q (m >>= f)
  Quiet-then h k = Ensures-then h (λ a. Ensures-given (k a))

  pub Quiet-done : {A : Type 0} {Q : A → Type 0} {a : A} → Q a → Quiet log Q (done a)
  Quiet-done q = record { ensures = λ s e. (e, q) }

  pub Quiet-fail : {A : Type 0} {Q : A → Type 0} (e : Error) → Quiet log Q (fail e)
  Quiet-fail e = record { ensures = λ s h. h }

  pub Quiet-check : (b : Bool) (e : Error) → Quiet log (λ _. b ≡ true) (check b e)
  Quiet-check true e = record { ensures = λ s h. (h, refl) }
  Quiet-check false e = record { ensures = λ s h. h }

  pub Quiet-some :
      {A : Type 0} (e : Error) (o : Option A) → Quiet log (λ a. o ≡ some a) (some_or e o)
  Quiet-some e none = record { ensures = λ s h. h }
  Quiet-some e (some a) = record { ensures = λ s h. (h, refl) }

  pub Quiet-weaken :
      {A : Type 0} {R Q : A → Type 0} {m : Act A}
      → ((a : A) → R a → Q a)
      → Quiet log R m
      → Quiet log Q m
  Quiet-weaken f h = Ensures-weaken (λ s p. p) (λ a s (e, r). (e, f a r)) h

  module _ (node : Node) (config : Config) where
    assert-Quiet : Quiet log (λ _. Unit {0}) (assert_current node config)
    unfolding assert_current
    assert-Quiet =
        Quiet-then (Quiet-read node.is_current)
          (λ b _. Quiet-weaken (λ _ _. tt) (Quiet-check b Error.stale))

    check_chain-Quiet : Quiet log (λ t. node.chain_id t ≡ 31372) (check_chain node config)
    unfolding check_chain
    check_chain-Quiet = record {
      ensures = λ s h. elim (Bool-cases (node.chain_id s.moment == 31372)) [
        | inl e ↦ rw (e, check_chain) (h, (==_iff (node.chain_id s.moment) 31372).0 e)
        | inr e ↦ rw (e, check_chain) h
      ];
    }

    pub guard-Quiet : Quiet log (Checked node config) (guard node config)
    unfolding guard
    guard-Quiet = Quiet-then assert-Quiet (λ _ _. Quiet-then check_chain-Quiet (λ t chain.
        Quiet-then assert-Quiet (λ _ _.
          Quiet-then (Quiet-check config.has_signer Error.no_wallet)
            (λ _ signer. Quiet-done (chain, signer)))))

    pub get_address-Quiet : Quiet log (IsUser node log) (get_address node config)
    unfolding get_address
    get_address-Quiet =
        Quiet-then (Quiet-read node.user)
          (λ o (s, e, q). Quiet-weaken (λ a h. (s, e, (sym q) ∙ h)) (Quiet-some Error.no_wallet o))

    pub deadline-Quiet : Quiet log (IsDeadline node log) (deadline node config)
    unfolding deadline
    deadline-Quiet =
        Quiet-then (Quiet-read node.timestamp)
          (λ now (s, e, q). Quiet-done (s, e, ap (λ n. n + 300) q))

    pub with_gas-Quiet :
        (more : ℕ) (a : Action)
        → Quiet log
            (λ call. (call.0 ≡ a) × IsEstimated node log more call)
            (with_gas node config more a)
    unfolding with_gas
    with_gas-Quiet more a = Quiet-then (Quiet-read (λ s. node.estimate s a)) (λ o (s, e, q).
        Quiet-then (Quiet-some no_answer o)
          (λ gas h. Quiet-done (refl, (s, e, (gas, (sym q) ∙ h, refl)))))

-- ===== src/Client/Steps.antt =====
-- index.mjs: what an operation keeps true of the transactions that were sent, part by part.
use oncm.Prelude.{
  ℕ, ◌≡◌, refl, sym, ap, ◌∙◌, ◌⊎◌, inl, inr, Bool, true, false, All, ◌==◌, ==_iff, ltb, ◌||◌, ◌^◌,
  ◌-◌, ◌+◌, if◌then◌else◌, Option, none, some, Result, ok, throw, ok-injective, subst, Bool-cases,
}
use oncm.Prelude.Acting.{done, fail, continue_with, ◌>>=◌, ◌>>◌, check, some_or}
use oncm.Client.Chain.{
  Error, no_wallet, Receipt, refuses, fails, confirms, Action, erc20_approve, permit2_approve, Sent,
  Session, Node, Config, Act, read, get_address, ensure_chain, transact, send_when, send, approve,
  permit,
}

-- What is known of the values of a part.
pub record Yields {A : Type 0} (m : Act A) (Q : A → Type 0) : Type 0 where
  pub yields : (s : Session) (a : A) → (m s).1 ≡ ok a → Q a

pub yields_read : {A : Type 0} (f : Session → A) → Yields (read f) (λ a. (s : Session) × (a ≡ f s))
unfolding read
yields_read f = record { yields = λ s a h. (s, sym (ok-injective h)) }

pub yields_some : {A : Type 0} (e : Error) (o : Option A) → Yields (some_or e o) (λ a. o ≡ some a)
yields_some e o = record { yields = λ s a h. by_case o s a h }
  where
    by_case :
        {A : Type 0} (o : Option A) (s : Session) (a : A) → (some_or e o s).1 ≡ ok a → o ≡ some a
    by_case none s a h = cc
    by_case (some b) s a h = ap (λ x. some x) (ok-injective h)

pub yields_done : {A : Type 0} (a : A) → Yields (done a) (λ b. a ≡ b)
yields_done a = record { yields = λ s b h. ok-injective h }

yields-continue :
    {A B : Type 0} (f : A → Act B) (Q : B → Type 0) (p : Session × Result Error A)
    → ((a : A) → p.1 ≡ ok a → Yields (f a) Q)
    → (b : B) → (continue_with f p).1 ≡ ok b
    → Q b
yields-continue f Q (s, throw e) k b h = cc
yields-continue f Q (s, ok a) k b h = (k a refl).yields s b h

pub yields_then :
    {A B : Type 0} {m : Act A} {f : A → Act B} (R : A → Type 0) (Q : B → Type 0)
    → Yields m R
    → ((a : A) → R a → Yields (f a) Q)
    → Yields (m >>= f) Q
unfolding ◌>>=◌
yields_then {m = m} {f = f} R Q y k = record {
  yields = λ s b h. yields-continue f Q (m s) (λ a e. k a (y.yields s a e)) b h;
}

pub yields_any : {A : Type 0} {m : Act A} → Yields m (λ a. Unit)
yields_any = record { yields = λ s a h. tt }

pub yields_value : {A : Type 0} {Q : A → Type 0} {a : A} → Q a → Yields (done a) Q
yields_value {Q = Q} q = record { yields = λ s b h. subst Q (ok-injective h) q }

pub yields_check : (b : Bool) (e : Error) → Yields (check b e) (λ _. b ≡ true)
yields_check true e = yields_value refl
yields_check false e = record { yields = λ s b h. cc }

-- the wallet's address
pub yields_address :
    (node : Node) (config : Config)
    → Yields (get_address node config) (λ user. (s : Session) × (node.user s ≡ some user))
unfolding get_address
yields_address node config =
    yields_then (λ o. (s : Session) × (o ≡ node.user s))
      (λ user. (s : Session) × (node.user s ≡ some user)) (yields_read node.user)
      (λ o (s, e). record {
        yields = λ t user h. (s, sym e ∙ (yields_some no_wallet o).yields t user h);
      })

pub Receipt-cases : (r : Receipt) → (r ≡ refuses) ⊎ ((r ≡ fails) ⊎ (r ≡ confirms))
Receipt-cases refuses = inl refl
Receipt-cases fails = inr (inl refl)
Receipt-cases confirms = inr (inr refl)

module _ (node : Node) (config : Config) (P : Action → Type 0) where
  -- The network was the client's when it was checked for the transaction, and the call is one of those that are expected.
  abbrev pub Proper : Sent → Type 0
  Proper x = (node.chain_id x.at ≡ 31373) × P x.action

  abbrev pub AllProper : Session → Type 0
  AllProper s = All Proper s.sent

  pub record Keeps {A : Type 0} (m : Act A) : Type 0 where
    pub keeps : (s : Session) → AllProper s → AllProper (m s).0

  ensure-kept : (s : Session) → AllProper s → AllProper (ensure_chain node config s).0
  unfolding ensure_chain
  ensure-kept s q = elim (Bool-cases (node.chain_id s.moment == 31373)) [
    | inl e ↦ rw (e, ensure_chain) q
    | inr e ↦ rw (e, ensure_chain) q
  ]

  -- the moment that `ensureChain` answers is one at which the network was the client's
  ensured : (s : Session) (t : ℕ) → (ensure_chain node config s).1 ≡ ok t → node.chain_id t ≡ 31373
  unfolding ensure_chain
  ensured s t h = elim (Bool-cases (node.chain_id s.moment == 31373)) [
    | inr e ↦ cc (rw (e, ensure_chain) at h)
    | inl e ↦
        subst (λ u. node.chain_id u ≡ 31373) (ok-injective (rw (e, ensure_chain) at h))
          ((==_iff (node.chain_id s.moment) 31373).0 e)
  ]

  transact-kept :
      (t : ℕ) (a : Action)
      → node.chain_id t ≡ 31373
      → P a
      → (s : Session) → AllProper s
      → AllProper (transact node config t a s).0
  unfolding transact
  transact-kept t a h p s q = elim (Receipt-cases (node.receipt s a)) [
    | inl e ↦ rw (e, transact) q
    | inr (inl e) ↦ rw (e, transact) ((h, p), q)
    | inr (inr e) ↦ rw (e, transact) ((h, p), q)
  ]

module _ {node : Node} {config : Config} {P : Action → Type 0} where
  Keeps-continue :
      {A B : Type 0} (f : A → Act B) (p : Session × Result Error A)
      → AllProper node config P p.0
      → ((a : A) → p.1 ≡ ok a → Keeps node config P (f a))
      → AllProper node config P (continue_with f p).0
  Keeps-continue f (s, throw e) h k = h
  Keeps-continue f (s, ok a) h k = (k a refl).keeps s h

  pub Keeps-then :
      {A B : Type 0} {m : Act A} {f : A → Act B}
      → Keeps node config P m
      → ((a : A) → Keeps node config P (f a))
      → Keeps node config P (m >>= f)
  unfolding ◌>>=◌
  Keeps-then {m = m} {f = f} h k = record {
    keeps = λ s q. Keeps-continue f (m s) (h.keeps s q) (λ a e. k a);
  }

  -- With what is known of the value.
  pub Keeps-after :
      {A B : Type 0} {m : Act A} {f : A → Act B} (Q : A → Type 0)
      → Keeps node config P m
      → Yields m Q
      → ((a : A) → Q a → Keeps node config P (f a))
      → Keeps node config P (m >>= f)
  unfolding ◌>>=◌
  Keeps-after {m = m} {f = f} Q h y k = record {
    keeps = λ s q. Keeps-continue f (m s) (h.keeps s q) (λ a e. k a (y.yields s a e));
  }

  pub Keeps-read : {A : Type 0} (f : Session → A) → Keeps node config P (read f)
  unfolding read
  Keeps-read f = record { keeps = λ s q. q }

  pub Keeps-done : {A : Type 0} {a : A} → Keeps node config P (done a)
  Keeps-done = record { keeps = λ s q. q }

  pub Keeps-fail : {A : Type 0} (e : Error) → Keeps node config P (fail {A = A} e)
  Keeps-fail e = record { keeps = λ s q. q }

  pub Keeps-check : (b : Bool) (e : Error) → Keeps node config P (check b e)
  Keeps-check true e = Keeps-done
  Keeps-check false e = Keeps-fail e

  pub Keeps-some : {A : Type 0} (e : Error) (o : Option A) → Keeps node config P (some_or e o)
  Keeps-some e none = Keeps-fail e
  Keeps-some e (some a) = Keeps-done

  pub Keeps-if :
      {A : Type 0} (b : Bool) {m n : Act A}
      → Keeps node config P m
      → Keeps node config P n
      → Keeps node config P (if b then m else n)
  Keeps-if true h k = h
  Keeps-if false h k = k

  pub Keeps-ensure : Keeps node config P (ensure_chain node config)
  Keeps-ensure = record { keeps = ensure-kept node config P }

  Keeps-transact :
      (t : ℕ) (a : Action)
      → node.chain_id t ≡ 31373
      → P a
      → Keeps node config P (transact node config t a)
  Keeps-transact t a h p = record { keeps = transact-kept node config P t a h p }

  pub Keeps-send_when :
      {test : Act (Unit {0})} (a : Action)
      → Keeps node config P test
      → P a
      → Keeps node config P (send_when node config test a)
  unfolding send_when ◌>>=◌
  Keeps-send_when {test} a k p = record {
    keeps = λ s q.
        Keeps-continue (λ t. test >> transact node config t a) (ensure_chain node config s)
          (ensure-kept node config P s q)
          (λ t e.
            Keeps-then {m = test} {f = λ _. transact node config t a} k
              (λ _. Keeps-transact t a (ensured node config P s t e) p));
  }

  pub Keeps-send : (a : Action) → P a → Keeps node config P (send node config a)
  unfolding send
  Keeps-send a p = Keeps-send_when {test = done tt} a Keeps-done p

  pub Keeps-address : Keeps node config P (get_address node config)
  unfolding get_address
  Keeps-address = Keeps-then (Keeps-read _) (Keeps-some Error.no_wallet)

  pub Keeps-approve :
      (token spender amount : ℕ)
      → P (erc20_approve token spender amount)
      → Keeps node config P (approve node config token spender amount)
  unfolding approve
  Keeps-approve token spender amount p = Keeps-then Keeps-address (λ user.
      Keeps-then (Keeps-read _)
        (λ allowed. Keeps-if (ltb allowed amount) (Keeps-send _ p) Keeps-done))

  pub Keeps-permit :
      (token amount : ℕ)
      → P (erc20_approve token config.permit2 amount)
      → ((s : Session)
          → P (permit2_approve token config.router (2 ^ 160 - 1) (node.timestamp s + 2592000)))
      → Keeps node config P (permit node config token amount)
  unfolding permit
  Keeps-permit token amount p r = Keeps-then (Keeps-approve token config.permit2 amount p) (λ _.
      Keeps-then Keeps-address (λ user. Keeps-then (Keeps-read _) (λ allowed.
        Keeps-after (λ now. (s : Session) × (now ≡ node.timestamp s)) (Keeps-read _) (yields_read _)
          (λ now (s, clock).
            Keeps-if (ltb allowed.0 amount || ltb allowed.1 (now + 600))
              (Keeps-send _ (
                subst (λ u. P (permit2_approve token config.router (2 ^ 160 - 1) (u + 2592000)))
                  (sym clock) (r s)))
              Keeps-done))))

-- ===== src/Exchange/Recorded.antt =====
-- index.mjs, `tx` and `approve`: what the log of a transaction looks like, whether it ends well or not.
use oncm.Prelude.{
  ℕ, ◌≡◌, refl, sym, ap, inl, inr, ◌<◌, Bool, true, false, Option, none, List, [], ◌∷◌, String, ltb,
  ltb→lt, if◌then◌else◌, Option-cases, Bool-cases, Result, ok, throw, subst,
}
use oncm.Prelude.Acting.{
  done, check, ◌>>=◌, ◌>>◌, Ends, Ensures, Ensures-then, Ensures-done, Ensures-weaken,
  Ensures-given,
}
use oncm.Exchange.Chain.{
  Error, Action, erc20_approve, Label, named, approval, Status, submitted, confirmed, Event, sends,
  tells, Session, Act, Call, Node, Config, read, submit_call, tell, wait, tx, tx_plain, approve,
}
use oncm.Exchange.Quiet.{
  Quiet, Then, Needed, Checked, guard-Quiet, get_address-Quiet, Quiet-read, Quiet-done,
  Quiet-weaken,
}

module _ (node : Node) (config : Config) (A : List Event → Call → Type 0) where
  -- Approvals that `A` allows, the latest first: each was sent after a check, reported, and confirmed before anything else was sent.
  pub data Approved : List Event → Type 0 where
    nothing : Approved []
    approves :
        {t h : ℕ} {a : Action} {gas : Option ℕ} {l : Label} {rest : List Event}
        → Checked node config t
        → A rest (a, gas)
        → Approved rest
        → Approved (tells confirmed l h ∷ tells submitted l h ∷ sends t a gas h ∷ rest)

  -- A call that `M` allows, sent after a check and reported once, on top of the approvals.
  pub data Waiting (M : List Event → Call → Type 0) : List Event → Type 0 where
    waits :
        {t h : ℕ} {a : Action} {gas : Option ℕ} {l : Label} {rest : List Event}
        → Checked node config t
        → M rest (a, gas)
        → Approved rest
        → Waiting M (tells submitted l h ∷ sends t a gas h ∷ rest)

  -- Such a call that was confirmed.
  pub data Finished (M : List Event → Call → Type 0) : List Event → Type 0 where
    finishes :
        {h : ℕ} {l : Label} {rest : List Event}
        → Waiting M (tells submitted l h ∷ rest)
        → Finished M (tells confirmed l h ∷ tells submitted l h ∷ rest)

  -- Where a function ends with an error: only approvals were sent, or the last call that was sent is not confirmed.
  pub data Stopped (M : List Event → Call → Type 0) : List Event → Type 0 where
    between : {log : List Event} → Approved log → Stopped M log
    failed_approval : {log : List Event} → Waiting A log → Stopped M log
    failed_call : {log : List Event} → Waiting M log → Stopped M log

  module _ {M : List Event → Call → Type 0} where
    -- An action that only asks ends between the transactions.
    pub quietly :
        {B : Type 0} {log : List Event} {Q : B → Type 0} {m : Act B}
        → Approved log
        → Quiet log Q m
        → Ensures (λ s. Stopped M s.log) (λ s. s.log ≡ log) (λ b s. (s.log ≡ log) × Q b) m
    quietly {B} {log} {Q} {m} v h = record { ensures = λ s e. at_end (m s) (h.ensures s e) }
      where
        at_end :
            (p : Session × Result Error B)
            → Ends (λ s. s.log ≡ log) (λ b s. (s.log ≡ log) × Q b) p
            → Ends (λ s. Stopped M s.log) (λ b s. (s.log ≡ log) × Q b) p
        at_end (s, throw e) k = subst (Stopped M) (sym k) (between v)
        at_end (s, ok b) k = k

    module _ {K : List Event → Call → Type 0} {log : List Event} (v : Approved log)
        (stops : (u : List Event) → Waiting K u → Stopped M u) (label : Label) where
      submit_lem :
          (t : ℕ) (a : Action) (gas : Option ℕ)
          → Ensures
              (λ s. Stopped M s.log)
              (λ s. s.log ≡ log)
              (λ h s. s.log ≡ sends t a gas h ∷ log)
              (submit_call node config t (a, gas))
      unfolding submit_call
      submit_lem t a gas = record {
        ensures = λ s e. elim (Option-cases (node.accepts s a gas)) [
          | inl q ↦ rw (q, submit_call) (subst (Stopped M) (sym e) (between v))
          | inr (h, q) ↦ rw (q, submit_call) (ap (λ u. sends t a gas h ∷ u) e)
        ];
      }

      tell_lem :
          (status : Status) (h : ℕ) (u : List Event)
          → Ensures
              (λ s. Stopped M s.log)
              (λ s. s.log ≡ u)
              (λ _ s. s.log ≡ tells status label h ∷ u)
              (tell node config status label h)
      unfolding tell
      tell_lem status h u = record { ensures = λ s e. ap (λ v'. tells status label h ∷ v') e }

      wait_lem :
          (h : ℕ) (u : List Event)
          → Stopped M u
          → Ensures (λ s. Stopped M s.log) (λ s. s.log ≡ u) (λ _ s. s.log ≡ u) (wait node config h)
      unfolding wait read ◌>>=◌
      wait_lem h u stopped = record {
        ensures = λ s e. elim (Bool-cases (node.confirms s h)) [
          | inl q ↦ rw (q, check) e
          | inr q ↦ rw (q, check) (subst (Stopped M) (sym e) stopped)
        ];
      }

      -- from the sending to the end
      sent_lem :
          (t : ℕ) (a : Action) (gas : Option ℕ)
          → Checked node config t
          → K log (a, gas)
          → Ensures
              (λ s. Stopped M s.log)
              (λ s. s.log ≡ log)
              (λ _ s. Finished K s.log)
              (submit_call node config t (a, gas) >>= λ h.
                tell node config submitted label h
                >> (wait node config h >> tell node config confirmed label h))
      sent_lem t a gas c k = Ensures-then (submit_lem t a gas) (λ h.
          let w : Waiting K (tells submitted label h ∷ sends t a gas h ∷ log) = waits c k v in
          Ensures-then (tell_lem submitted h (sends t a gas h ∷ log)) (λ _.
            Ensures-then (wait_lem h _ (stops _ w)) (λ _.
              Ensures-weaken (λ s p. p) (λ _ s e. subst (Finished K) (sym e) (finishes w))
                (tell_lem confirmed h _))))

      tx_lem :
          (promise : Act Call)
          → Quiet log (K log) promise
          → Ensures
              (λ s. Stopped M s.log)
              (λ s. s.log ≡ log)
              (λ _ s. Finished K s.log)
              (tx node config label promise)
      unfolding tx
      tx_lem promise q = Ensures-then (quietly v (guard-Quiet node config)) (λ t.
          Ensures-then (Ensures-given (λ c. quietly v (Quiet-weaken (λ call k. (c, k)) q)))
            (λ (a, gas). Ensures-given (λ (c, k). sent_lem t a gas c k)))

  approved_of : {log : List Event} → Finished A log → Approved log
  approved_of (finishes (waits c k v)) = approves c k v

  module _ (M : List Event → Call → Type 0) where
    -- What keeps to the approvals.
    abbrev pub Approving : {B : Type 0} → Act B → Type 0
    Approving m = Ensures (λ s. Stopped M s.log) (λ s. Approved s.log) (λ _ s. Approved s.log) m

    -- What ends with the call.
    abbrev pub Finishing : {B : Type 0} → Act B → Type 0
    Finishing m = Ensures (λ s. Stopped M s.log) (λ s. Approved s.log) (λ _ s. Finished M s.log) m

  module _ {M : List Event → Call → Type 0} where
    from_log :
        {B : Type 0} {Q : B → Session → Type 0} {m : Act B}
        → ((log : List Event)
            → Approved log
            → Ensures (λ s. Stopped M s.log) (λ s. s.log ≡ log) Q m)
        → Ensures (λ s. Stopped M s.log) (λ s. Approved s.log) Q m
    from_log k = record { ensures = λ s v. (k s.log v).ensures s refl }

    pub Quiet-Approving :
        {B : Type 0} {Q : List Event → B → Type 0} {m : Act B}
        → ((log : List Event) → Quiet log (Q log) m)
        → Approving M m
    Quiet-Approving {Q = Q} k = from_log (λ log v.
        Ensures-weaken (λ s p. p) (λ b s (e, q). subst Approved (sym e) v) (quietly v (k log)))

    pub tx-Finishing :
        (label : Label) {promise : Act Call}
        → ((log : List Event) → Quiet log (M log) promise)
        → Finishing M (tx node config label promise)
    tx-Finishing label k = from_log (λ log v. tx_lem v (λ u w. failed_call w) label _ (k log))

    pub tx_plain-Finishing :
        (text : String) (a : Action)
        → ((log : List Event) → M log (a, none))
        → Finishing M (tx_plain node config text a)
    unfolding tx_plain
    tx_plain-Finishing text a k = tx-Finishing (named text) (λ log. Quiet-done (k log))

    approve_tx :
        (log : List Event) (v : Approved log) (label : Label) (a : Action)
        → A log (a, none)
        → Ensures
            (λ s. Stopped M s.log)
            (λ s. s.log ≡ log)
            (λ _ s. Approved s.log)
            (tx node config label (done (a, none)))
    approve_tx log v label a k =
        Ensures-weaken (λ s p. p) (λ _ s f. approved_of f)
          (tx_lem v (λ u w. failed_approval w) label (done (a, none)) (Quiet-done k))

    pub approve-Approving :
        (token spender amount : ℕ)
        → ((log : List Event)
            → Needed node log token spender amount
            → A log (erc20_approve token spender amount, none))
        → Approving M (approve node config token spender amount)
    unfolding approve
    approve-Approving token spender amount k = from_log (λ log v.
        Ensures-then (quietly v (guard-Quiet node config)) (λ t.
          Ensures-then (at_log log v (get_address-Quiet node config)) (λ owner.
            Ensures-then (at_log log v (Quiet-read (λ s. node.allowance s owner token spender)))
              (λ allowed. at_test log v owner allowed (ltb allowed amount) refl))))
      where
        at_log :
            (log : List Event) (v : Approved log) {B R : Type 0} {Q : B → Type 0} {m : Act B}
            → Quiet log Q m
            → Ensures (λ s. Stopped M s.log) (λ s. (s.log ≡ log) × R) (λ b s. (s.log ≡ log) × Q b) m
        at_log log v q = Ensures-weaken (λ s (e, r). e) (λ b s p. p) (quietly v q)

        at_test :
            (log : List Event) (v : Approved log) (owner allowed : ℕ) (b : Bool)
            → ltb allowed amount ≡ b
            → Ensures
                (λ s. Stopped M s.log)
                (λ s.
                  (s.log ≡ log) × Then log (λ u. allowed ≡ node.allowance u owner token spender))
                (λ _ s. Approved s.log)
                (if b
                  then (read (λ s. node.symbol s token) >>= λ symbol.
                      tx node config
                        (approval amount symbol)
                        (done (erc20_approve token spender amount, none)))
                  else done tt)
        at_test log v owner allowed false h = Ensures-done (λ s (e, w). subst Approved (sym e) v)
        at_test log v owner allowed true h = record {
          ensures = λ s (e, (u, f, q)).
              (Ensures-then (quietly v (Quiet-read (λ s. node.symbol s token))) (λ symbol.
                  Ensures-weaken (λ s (e', r). e') (λ _ s p. p)
                    (approve_tx log v (approval amount symbol) (erc20_approve token spender amount)
                      (k log (
                        u,
                        f,
                        (owner, subst (λ n. n < amount) q (ltb→lt allowed amount h)),
                      ))))).ensures
                s e;
        }

    -- What is found out before the first transaction is known of the log that the transaction finds.
    pub Quiet-Finishing :
        {B C : Type 0} {R : List Event → B → Type 0} {m : Act B} {f : B → Act C}
        → ((log : List Event) → Quiet log (R log) m)
        → ((log : List Event)
            → Approved log
            → (b : B) → R log b
            → Ensures (λ s. Stopped M s.log) (λ s. s.log ≡ log) (λ _ s. Finished M s.log) (f b))
        → Finishing M (m >>= f)
    Quiet-Finishing h k =
        from_log (λ log v. Ensures-then (quietly v (h log)) (λ b. Ensures-given (k log v b)))

    pub tx-at :
        (label : Label) {promise : Act Call} (log : List Event)
        → Approved log
        → Quiet log (M log) promise
        → Ensures
            (λ s. Stopped M s.log)
            (λ s. s.log ≡ log)
            (λ _ s. Finished M s.log)
            (tx node config label promise)
    tx-at label log v q = tx_lem v (λ u w. failed_call w) label _ q

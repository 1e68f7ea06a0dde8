-- ===== src/Governance.antt =====
-- implementations/vault/sdk/governance.mjs, `governanceEligibility`: what the interface offers a wallet to do
-- with a proposal. A wallet is its number; `none` is no account, and 0 the zero address.
mod Examples
use oncm.Prelude.{
  ℕ, zero, suc, ◌≤◌, ◌<◌, ◌≡◌, refl, sym, ap, ◌∙◌, ◌↔◌, Bool, false, not, Option, none, some, List,
  [], ◌∷◌, get_elem?, ltb, ◌==◌, if◌then◌else◌, arith, Option-cases, inl, inr,
}

-- `GOVERNOR_STATES`: their order is the contract's numbering.
pub data GovernorState : Type 0 where
  pending active canceled defeated succeeded queued expired executed : GovernorState

unfoldable pub governor_states : List GovernorState
governor_states =
    pending ∷ active ∷ canceled ∷ defeated ∷ succeeded ∷ queued ∷ expired ∷ executed ∷ []

pub data Reason : Type 0 where
  connect_wallet voting_closed already_voted no_votes needs_succeeded needs_queued delay_not_over
        needs_pending only_the_author :
      Reason

pub data Verdict : Type 0 where
  yes_eligible : Verdict
  refused : Reason → Verdict

pub record Situation : Type 0 where
  pub state : ℕ
  pub account : Option ℕ
  pub proposer : ℕ
  pub has_voted : Bool
  pub snapshot_votes : Option ℕ
  pub eta : ℕ
  pub timestamp : ℕ

pub data Action : Type 0 where
  vote queue execute cancel : Action

-- `!!account && account !== ZeroAddress`
unfoldable pub connected : Option ℕ → Option ℕ
connected none = none
connected (some zero) = none
connected (some (suc a)) = some (suc a)

-- `snapshotVotes || 0`
abbrev pub votes_of : Option ℕ → ℕ
votes_of none = 0
votes_of (some n) = n

-- the tests of one action, for the wallet that is connected
abbrev pub chosen : Situation → Action → ℕ → Verdict
chosen s vote a =
    if not (s.state == 1)
    then refused voting_closed
    else if s.has_voted
    then refused already_voted
    else if votes_of s.snapshot_votes == 0
    then refused no_votes
    else yes_eligible
chosen s queue a = if not (s.state == 4) then refused needs_succeeded else yes_eligible
chosen s execute a =
    if not (s.state == 5)
    then refused needs_queued
    else if ltb s.timestamp s.eta
    then refused delay_not_over
    else yes_eligible
chosen s cancel a =
    if not (s.state == 0)
    then refused needs_pending
    else if not (a == s.proposer)
    then refused only_the_author
    else yes_eligible

-- the four fields of the result
unfoldable pub governance_eligibility : Situation → Action → Verdict
governance_eligibility s action = elim (connected s.account) [
  | none ↦ refused connect_wallet
  | some a ↦ chosen s action a
]

-- The governor's state that an action asks for.
abbrev pub needed : Action → GovernorState
needed vote = active
needed queue = succeeded
needed execute = queued
needed cancel = pending

-- What else the action asks for, of the wallet that is connected.
abbrev pub Allowed : Situation → Action → ℕ → Type 0
Allowed s vote a = (s.has_voted ≡ false) × (0 < votes_of s.snapshot_votes)
Allowed s queue a = Unit
Allowed s execute a = s.eta ≤ s.timestamp
Allowed s cancel a = a ≡ s.proposer

abbrev pub Ready : Situation → Action → Type 0
Ready s action =
    (a : ℕ) × (s.account ≡ some a)
    × (0 < a)
    × (get_elem? governor_states s.state ≡ some (needed action))
    × Allowed s action a

connected-some : (o : Option ℕ) {a : ℕ} → connected o ≡ some a → (o ≡ some a) × (0 < a)
unfolding connected
connected-some none h = cc
connected-some (some zero) h = cc
connected-some (some (suc n)) h = (h, ground arith)

connected-eq : (o : Option ℕ) (a : ℕ) → o ≡ some a → 0 < a → connected o ≡ some a
unfolding connected
connected-eq none a h p = cc
connected-eq (some zero) a h p = absurd (ground arith)
connected-eq (some (suc n)) a h p = h

-- the number of the state that an action asks for
abbrev number_of : Action → ℕ
number_of vote = 1
number_of queue = 4
number_of execute = 5
number_of cancel = 0

numbered : (n : ℕ) (a : Action) → get_elem? governor_states n ≡ some (needed a) → n ≡ number_of a
unfolding governor_states
numbered n vote h = ground arith
numbered n queue h = ground arith
numbered n execute h = ground arith
numbered n cancel h = ground arith

numbering : (a : Action) → get_elem? governor_states (number_of a) ≡ some (needed a)
unfolding governor_states
numbering vote = refl
numbering queue = refl
numbering execute = refl
numbering cancel = refl

chosen_iff :
    (s : Situation) (a : Action) (w : ℕ)
    → (chosen s a w ≡ yes_eligible) ↔ ((s.state ≡ number_of a) × Allowed s a w)
chosen_iff s vote w = ground arith
chosen_iff s queue w = ground arith
chosen_iff s execute w = ground arith
chosen_iff s cancel w = ground arith

eligible-Ready :
    (s : Situation) (a : Action) → governance_eligibility s a ≡ yes_eligible → Ready s a
unfolding governance_eligibility
eligible-Ready s a h = elim (Option-cases (connected s.account)) [
  | inl none' ↦ cc (rw (none', governance_eligibility) at h)
  | inr (w, f) ↦
      let (n, r) = (chosen_iff s a w).0 (rw (f, governance_eligibility) at h) in
      let (g, p) = connected-some s.account f in
      (w, g, p, (ap (λ (k : ℕ). get_elem? governor_states k) n ∙ numbering a), r)
]

Ready-eligible :
    (s : Situation) (a : Action) → Ready s a → governance_eligibility s a ≡ yes_eligible
unfolding governance_eligibility
Ready-eligible s a (w, g, p, n, r) =
    rw (connected-eq s.account w g p, governance_eligibility)
      ((chosen_iff s a w).1 (numbered s.state a n, r))

-- An action is offered exactly to a connected wallet, in the governor's state for that action, and to vote, where it has
-- not voted and has votes at the snapshot, to execute, when the delay is over, to cancel, where it is the author.
pub governance_eligibility_iff :
    (s : Situation) (a : Action) → (governance_eligibility s a ≡ yes_eligible) ↔ Ready s a
governance_eligibility_iff s a = (eligible-Ready s a, Ready-eligible s a)

-- At most one of the four actions is offered.
pub eligible_once :
    (s : Situation) (a b : Action)
    → governance_eligibility s a ≡ yes_eligible
    → governance_eligibility s b ≡ yes_eligible
    → a ≡ b
eligible_once s a b h k =
    let (_, _, _, m, _) = eligible-Ready s a h in
    let (_, _, _, n, _) = eligible-Ready s b k in
    same a b (sym (numbered s.state a m) ∙ numbered s.state b n)
  where
    same : (a b : Action) → number_of a ≡ number_of b → a ≡ b
    same a b e = ground arith

-- ===== src/ProofJobs/Steps/Resubmission.antt =====
-- proof-jobs.mjs: what a request is given that is equal to an earlier one.
use oncm.Prelude.{
  keep, ℕ, ◌<◌, ◌≡◌, refl, sym, ◌⊎◌, inl, inr, false, Option, none, some, List, length, ok,
  ℕ_discrete, arith, ap, ◌∙◌,
}
use oncm.Prelude.Keyed.{get}
use oncm.ProofJobs.Input.{Input, Raw, normalize}
use oncm.ProofJobs.Queue.{owned_by, Job, State, Settings, job_of, new_job, submit, create}
use oncm.ProofJobs.Steps.{
  Step, submits, begins, settles, finishes, reports, cancels, closes, Reach, here, next, Inv,
  put_self, active-Job,
}
use oncm.ProofJobs.Steps.Requests.{submit-Submitted, cancel-Cancelled, enqueued}
use oncm.ProofJobs.Steps.History.{Reach-Inv}
use oncm.ProofJobs.Steps.Identities.{
  Alive, Named, drain-Named, begin-Named, settle-Named, report-Named, cancelled-Named,
  enqueued-Named,
}

create-Named : (jobs : List (ℕ × Job)) → Named (create jobs)
unfolding create get
create-Named jobs = record { distinct = tt; alive = λ key id h. absurd (cc h) }

Step-Named : (c : Settings) {s t : State} → Step c s t → Inv s → Named s → Named t
Step-Named c (submits s id owner raw t job fresh h) w v =
    let (input, _, _, what) = submit-Submitted c id owner raw s t job h in
    elim what [
      | inl (_, same) ↦ rw same v
      | inr (_, _, _, _, new) ↦ rw new (enqueued-Named c id owner input s w v fresh)
    ]
Step-Named c (begins s id e h waits free) w v = begin-Named s id e w v h
Step-Named c (settles s id e ending h held) w v = settle-Named s id e ending w v h
Step-Named c (finishes s id e h ended) w v =
    let (j, f, _) = active-Job s id w h in drain-Named s id e v h f w.distinct
Step-Named c (reports s id text held) w v = report-Named s id text v
Step-Named c (cancels s owner id t h) w v =
    let (j, f, _, what) = cancel-Cancelled owner id s t h in
    elim what [
      | inl (_, same) ↦ rw same v
      | inr (live, entry) ↦ let (e, g, new) = entry in rw new (cancelled-Named s id j e v f g)
    ]
Step-Named c (closes s) w v = record { distinct = v.distinct; alive = v.alive }

Reach-Named : (c : Settings) (jobs : List (ℕ × Job)) {s : State} → Reach c (create jobs) s → Named s
Reach-Named c jobs here = create-Named jobs
Reach-Named c jobs (next r st) = Step-Named c st (Reach-Inv c jobs r) (Reach-Named c jobs r)

-- In every state that the queue reaches, a submission that succeeds under a new identifier gives a job that is active for the digest of the
-- request, be it the new one or one that is known, and that has not ended, or whose task has ended and has its `finally` still to come. A
-- job that was cancelled and still waits for its turn is not given.
pub submit_live :
    (c : Settings) (jobs : List (ℕ × Job)) {s t : State} (id owner job : ℕ) (raw : Option Raw)
    → Reach c (create jobs) s
    → job_of s id ≡ none
    → submit c id owner raw s ≡ ok (t, job)
    → (input : Input) × (normalize raw ≡ ok input) × Alive t job (c.digest owner input)
submit_live c jobs {s} {t} id owner job raw r fresh h =
    let (input, valid, _, what) = submit-Submitted c id owner raw s t job h in
    (
      input,
      valid,
      elim what [
        | inl (g, same) ↦ rw same ((Reach-Named c jobs r).alive (c.digest owner input) job g)
        | inr (_, e, _, _, new) ↦
            rw (new, e)
              (
                record { key = c.digest owner input; aborted = false; ended = false },
                new_job owner input,
                put_self id _ s.active,
                refl,
                put_self id _ s.jobs,
                inl refl,
              )
      ],
    )

submit_known :
    (c : Settings) (id owner job : ℕ) (raw : Option Raw) (input : Input) (s : State)
    → s.closed ≡ false
    → normalize raw ≡ ok input
    → get ℕ_discrete (c.digest owner input) s.identities ≡ some job
    → submit c id owner raw s ≡ ok (s, job)
unfolding submit
submit_known c id owner job raw input s a valid b = ground arith

-- The same request, submitted again at once, is given the same job and changes nothing, whatever identifier is drawn for it
-- and however full the queue is.
pub submit_again :
    (c : Settings) (id again owner job : ℕ) (raw : Option Raw) (s t : State)
    → submit c id owner raw s ≡ ok (t, job)
    → submit c again owner raw t ≡ ok (t, job)
submit_again c id again owner job raw s t h =
    let (input, valid, open', what) = submit-Submitted c id owner raw s t job h in
    let (a, b) = known input what open' in submit_known c again owner job raw input t a valid b
  where
    known :
        (input : Input)
        → ((get ℕ_discrete (c.digest owner input) s.identities ≡ some job) × (t ≡ s))
          ⊎ ((get ℕ_discrete (c.digest owner input) s.identities ≡ none)
              × (job ≡ id)
              × (length s.active < c.max_pending)
              × (length (keep (owned_by owner s.jobs) s.active) < c.max_per_owner)
              × (t ≡ enqueued c id owner input s))
        → s.closed ≡ false
        → (t.closed ≡ false) × (get ℕ_discrete (c.digest owner input) t.identities ≡ some job)
    known input (inl (g, same)) o = (
      ap (λ (x : State). x.closed) same ∙ o,
      ap (λ (x : State). get ℕ_discrete (c.digest owner input) x.identities) same ∙ g,
    )
    known input (inr (_, e, _, _, new)) o = (
      ap (λ (x : State). x.closed) new ∙ o,
      ap (λ (x : State). get ℕ_discrete (c.digest owner input) x.identities) new
          ∙ put_self (c.digest owner input) id s.identities
          ∙ ap (λ (x : ℕ). some x) (sym e),
    )

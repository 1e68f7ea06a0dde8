-- ===== src/ProofJobs/Steps/Requests.antt =====
-- proof-jobs.mjs: `submit` and `cancel` keep the invariant.
use oncm.Prelude.{
  ℕ, ◌<◌, ◌≡◌, refl, ◌⊎◌, inl, inr, Bool, true, false, Option, none, some, length, keep,
  if◌then◌else◌, ok, throw_if, throw_if-ok, >>=-eq-ok, ℕ_discrete, arith, Option-cases, Bool-cases,
}
use oncm.Prelude.Keyed.{get, put, put-IsMap}
use oncm.ProofJobs.Input.{Raw, Input, normalize}
use oncm.ProofJobs.Queue.{
  Status, queued, running, cancelling, cancelled, is_terminal, is_queued, Job, Entry, State,
  Settings, job_of, entry_of, save, owned_by, forget, new_job, submit, cancel, cancel_text,
}
use oncm.ProofJobs.Steps.{Phase, Agrees, is_held, Inv, changed-Inv, put_ne, put_self}

-- The state after a new job is queued.
abbrev pub enqueued : Settings → ℕ → ℕ → Input → State → State
enqueued c id owner input s = record s {
  jobs = put ℕ_discrete id (new_job owner input) s.jobs;
  saved = put ℕ_discrete id (new_job owner input) s.jobs;
  active =
      put ℕ_discrete id (record { key = c.digest owner input; aborted = false; ended = false })
        s.active;
  identities = put ℕ_discrete (c.digest owner input) id s.identities;
}

abbrev pub Submitted : Settings → ℕ → ℕ → Option Raw → State → State → ℕ → Type 0
Submitted c id owner raw s t job =
    (input : Input) × (normalize raw ≡ ok input)
    × (s.closed ≡ false)
    × (((get ℕ_discrete (c.digest owner input) s.identities ≡ some job) × (t ≡ s))
        ⊎ ((get ℕ_discrete (c.digest owner input) s.identities ≡ none)
            × (job ≡ id)
            × (length s.active < c.max_pending)
            × (length (keep (owned_by owner s.jobs) s.active) < c.max_per_owner)
            × (t ≡ enqueued c id owner input s)))

-- A submission that succeeds was made while the queue was open, of a request that is valid; it gives back the job that
-- is known for the request's digest and changes nothing, or, where none is and both the queue and the owner
-- have room, queues one new job under the new identifier.
pub submit-Submitted :
    (c : Settings) (id owner : ℕ) (raw : Option Raw) (s t : State) (job : ℕ)
    → submit c id owner raw s ≡ ok (t, job)
    → Submitted c id owner raw s t job
unfolding submit save
submit-Submitted c id owner raw s t job h =
    let (_, hc, h1) = >>=-eq-ok (throw_if s.closed _) _ h in
    let (input, hn, h2) = >>=-eq-ok (normalize raw) _ h1 in
    (input, hn, throw_if-ok _ _ hc, ground arith)

pub submit-Inv :
    (c : Settings) (id owner : ℕ) (raw : Option Raw) (s t : State) (job : ℕ)
    → job_of s id ≡ none
    → submit c id owner raw s ≡ ok (t, job)
    → Inv s
    → Inv t
submit-Inv c id owner raw s t job fresh h v = queue (submit-Submitted c id owner raw s t job h)
  where
    idle : (o : Option Entry) (held : Bool) → Agrees none o held → held ≡ false
    idle none held a = a
    idle (some e) held a = absurd a

    queue : Submitted c id owner raw s t job → Inv t
    queue (input, _, _, inl (_, same)) = rw same v
    queue (input, _, _, inr (_, _, _, _, new)) = rw new (
        changed-Inv s (enqueued c id owner input s) id v
          (put-IsMap ℕ_discrete id _ s.active v.distinct)
          (rw
            (
              put_self id (new_job owner input) s.jobs,
              put_self id (record { key = c.digest owner input; aborted = false; ended = false })
                  s.active,
            )
            (refl, idle (entry_of s id) (is_held s.holder id) (rw fresh at (v.agrees id)), refl))
          (λ k n. (put_ne id k _ s.jobs n, put_ne id k _ s.active n, refl)))

-- The state after the entry of an active job is aborted.
abbrev pub cancelled_state : ℕ → Job → Entry → State → State
cancelled_state id j e s = record s {
  jobs =
      put ℕ_discrete id
        (record j {
          status = if is_queued j.status then cancelled else cancelling;
          diagnostics = cancel_text (is_queued j.status);
        })
        s.jobs;
  saved =
      put ℕ_discrete id
        (record j {
          status = if is_queued j.status then cancelled else cancelling;
          diagnostics = cancel_text (is_queued j.status);
        })
        s.jobs;
  active = put ℕ_discrete id (record e { aborted = true }) s.active;
  identities = if is_queued j.status then forget e.key id s.identities else s.identities;
}

abbrev pub Cancelled : ℕ → ℕ → State → State → Type 0
Cancelled owner id s t =
    (j : Job) × (job_of s id ≡ some j)
    × (j.author ≡ owner)
    × (((is_terminal j.status ≡ true) × (t ≡ s))
        ⊎ ((is_terminal j.status ≡ false)
            × ((e : Entry) × (entry_of s id ≡ some e) × (t ≡ cancelled_state id j e s))))

-- A cancellation that succeeds is the author's; it leaves an ended job, and the whole state, as they
-- are, and aborts the entry of any other job: one that waits ends at once, one that runs is being cancelled.
pub cancel-Cancelled :
    (owner id : ℕ) (s t : State) → cancel owner id s ≡ ok t → Cancelled owner id s t
unfolding cancel save
cancel-Cancelled owner id s t h = elim (Option-cases (job_of s id)) [
  | inl none' ↦ ground arith
  | inr (j, f) ↦ elim (Option-cases (entry_of s id)) [
    | inl none' ↦ (j, f, ground arith, ground arith)
    | inr (e, g) ↦ (
      j,
      f,
      ground arith,
      elim (Bool-cases (is_terminal j.status)) [
        | inl ended ↦ inl (ended, ground arith)
        | inr live ↦ inr (live, (e, g, ground arith))
      ],
    )
  ]
]

cancelled_Phase :
    (st : Status) (aborted ended held : Bool)
    → Phase st aborted ended held
    → is_terminal st ≡ false
    → Phase (if is_queued st then cancelled else cancelling) true ended held
cancelled_Phase queued a d h p n = (refl, p.1)
cancelled_Phase running a d h p n = (refl, p.1, p.2)
cancelled_Phase cancelling a d h p n = (refl, p.1, p.2)
cancelled_Phase _ a d h p n = cc

pub cancel-Inv : (owner id : ℕ) (s t : State) → cancel owner id s ≡ ok t → Inv s → Inv t
cancel-Inv owner id s t h v = apply (cancel-Cancelled owner id s t h)
  where
    apply : Cancelled owner id s t → Inv t
    apply (j, f, _, inl (_, same)) = rw same v
    apply (j, f, _, inr (live, (e, g, new))) = rw new (
        changed-Inv s (cancelled_state id j e s) id v
          (put-IsMap ℕ_discrete id _ s.active v.distinct)
          (rw
            (
              put_self id
                  (record j {
                    status = if is_queued j.status then cancelled else cancelling;
                    diagnostics = cancel_text (is_queued j.status);
                  })
                  s.jobs,
              put_self id (record e { aborted = true }) s.active,
            )
            (cancelled_Phase j.status e.aborted e.ended (is_held s.holder id)
              (rw (f, g) at (v.agrees id)) live))
          (λ k n. (put_ne id k _ s.jobs n, put_ne id k _ s.active n, refl)))

-- ===== src/ProofJobs/Steps.antt =====
-- proof-jobs.mjs, `createProofJobs`: what can happen to the queue, and what every history keeps.
-- p-queue runs one task at a time (`concurrency: 1`): a task begins only when none is held, which may be
-- before the `finally` of the one that ended, and settles while it is held. A task that was aborted before its turn ends at once.
-- Where p-queue is idle, it begins a task within `submit`: then `begins` follows on `submits` with no step between.
pub mod Requests
pub mod History
pub mod Capacity
pub mod Identities
pub mod Resubmission
use oncm.Prelude.{
  ℕ, ◌≡◌, refl, sym, ◌≢◌, ◌⊎◌, inl, inr, Bool, true, false, Option, none, some, List, ◌==◌, String,
  ok, ℕ_discrete, if_pos, if_neg, arith, Option-cases, Bool-cases, ◌∙◌,
}
use oncm.Prelude.Keyed.{get, put, delete, IsMap, get-put, get-delete, put-IsMap, delete-IsMap}
use oncm.ProofJobs.Input.{Raw, last_units}
use oncm.ProofJobs.Queue.{
  Status, queued, running, cancelling, completed, failed, cancelled, is_terminal, Job, Entry, State,
  Settings, Ending, resolved, rejected, job_of, entry_of, save, update_job, forget, submit, drain,
  begin, settle_job, ended_task, settle, report, cancel,
}

pub data Step (c : Settings) : State → State → Type 0 where
  submits :
      (s : State) (id owner : ℕ) (raw : Option Raw) (t : State) (job : ℕ)
      → job_of s id ≡ none
      → submit c id owner raw s ≡ ok (t, job)
      → Step c s t
  begins :
      (s : State) (id : ℕ) (e : Entry)
      → entry_of s id ≡ some e
      → e.ended ≡ false
      → s.holder ≡ none
      → Step c s (begin id e s)
  settles :
      (s : State) (id : ℕ) (e : Entry) (ending : Ending)
      → entry_of s id ≡ some e
      → s.holder ≡ some id
      → Step c s (settle id e ending s)
  finishes :
      (s : State) (id : ℕ) (e : Entry)
      → entry_of s id ≡ some e
      → e.ended ≡ true
      → Step c s (drain id e s)
  reports : (s : State) (id : ℕ) (text : String) → s.holder ≡ some id → Step c s (report id text s)
  cancels : (s : State) (owner id : ℕ) (t : State) → cancel owner id s ≡ ok t → Step c s t
  closes : (s : State) → Step c s (record s { closed = true })

pub data Reach (c : Settings) (s : State) : State → Type 0 where
  here : Reach c s s
  next : {t u : State} → Reach c s t → Step c t u → Reach c s u

-- The status of a job fits the flags of its entry and the task that is held.
abbrev pub Phase : Status → Bool → Bool → Bool → Type 0
Phase queued aborted ended held = (aborted ≡ false) × (held ≡ false) × (ended ≡ false)
Phase cancelled aborted ended held = (aborted ≡ true) × (held ≡ false)
Phase running aborted ended held = (aborted ≡ false) × (held ≡ true) × (ended ≡ false)
Phase cancelling aborted ended held = (aborted ≡ true) × (held ≡ true) × (ended ≡ false)
Phase completed aborted ended held = (aborted ≡ false) × (held ≡ false) × (ended ≡ true)
Phase failed aborted ended held = (aborted ≡ false) × (held ≡ false) × (ended ≡ true)

-- A job that is not active has ended; an active one is in a phase of its entry.
abbrev pub Agrees : Option Job → Option Entry → Bool → Type 0
Agrees none none held = held ≡ false
Agrees (some j) none held = (is_terminal j.status ≡ true) × (held ≡ false)
Agrees none (some e) held = ⊥
Agrees (some j) (some e) held = Phase j.status e.aborted e.ended held

abbrev pub is_held : Option ℕ → ℕ → Bool
is_held none id = false
is_held (some n) id = n == id

pub record Inv (s : State) : Type 0 where
  pub distinct : IsMap ℕ_discrete s.active
  pub agrees : (id : ℕ) → Agrees (job_of s id) (entry_of s id) (is_held s.holder id)

update_job-eq :
    (id : ℕ) (f : Job → Job) (s : State) {j : Job}
    → job_of s id ≡ some j
    → update_job id f s ≡ record s { jobs = put ℕ_discrete id (f j) s.jobs }
unfolding update_job
update_job-eq id f s h = rw (h, update_job)

-- The state that a drained task leaves.
abbrev drained : ℕ → Entry → Job → State → State
drained id e j s = record s {
  jobs = put ℕ_discrete id (record j { finished = true }) s.jobs;
  saved = put ℕ_discrete id (record j { finished = true }) s.jobs;
  active = delete ℕ_discrete id s.active;
  identities = forget e.key id s.identities;
}

drain-eq :
    (id : ℕ) (e : Entry) (s : State) {j : Job}
    → job_of s id ≡ some j
    → drain id e s ≡ drained id e j s
unfolding drain save
drain-eq id e s h = rw (update_job-eq id (λ j. record j { finished = true }) s h)

drained-Inv :
    (id : ℕ) (e : Entry) (s : State) (j : Job)
    → IsMap ℕ_discrete s.active
    → is_terminal j.status ≡ true
    → is_held s.holder id ≡ false
    → ((k : ℕ) → Agrees (job_of s k) (entry_of s k) (is_held s.holder k))
    → Inv (drained id e j s)
drained-Inv id e s j m ht idle others = record {
  distinct = delete-IsMap ℕ_discrete id s.active m;
  agrees = λ k.
      rw
        (
          get-put ℕ_discrete id k (record j { finished = true }) s.jobs,
          get-delete ℕ_discrete id k s.active m,
        )
        (elim (ℕ_discrete id k) [
          | yes p ↦
              rw
                (
                  if_pos (ℕ_discrete id k) p (some (record j { finished = true })) (job_of s k),
                  if_pos (ℕ_discrete id k) p none (entry_of s k),
                )
                (ht, (rw (sym p) idle))
          | no n ↦
              rw
                (
                  if_neg (ℕ_discrete id k) n (some (record j { finished = true })) (job_of s k),
                  if_neg (ℕ_discrete id k) n none (entry_of s k),
                )
                (others k)
        ]);
}

-- A change at one job keeps the invariant if it agrees there and the rest is as it was.
changed-Inv :
    (s t : State) (id : ℕ)
    → Inv s
    → IsMap ℕ_discrete t.active
    → Agrees (job_of t id) (entry_of t id) (is_held t.holder id)
    → ((k : ℕ)
        → k ≢ id
        → (job_of t k ≡ job_of s k)
          × (entry_of t k ≡ entry_of s k)
          × (is_held t.holder k ≡ is_held s.holder k))
    → Inv t
changed-Inv s t id v m here' others = record {
  distinct = m;
  agrees = λ k. elim (ℕ_discrete k id) [
    | yes p ↦ rw p here'
    | no n ↦ rw ((others k n).0, (others k n).1, (others k n).2) (v.agrees k)
  ];
}

put_ne :
    {V : Type 0} (id k : ℕ) (v : V) (m : List (ℕ × V))
    → k ≢ id
    → get ℕ_discrete k (put ℕ_discrete id v m) ≡ get ℕ_discrete k m
put_ne id k v m n = get-put ℕ_discrete id k v m ∙ if_neg (ℕ_discrete id k) (λ e. n (sym e)) _ _

put_self :
    {V : Type 0} (id : ℕ) (v : V) (m : List (ℕ × V))
    → get ℕ_discrete id (put ℕ_discrete id v m) ≡ some v
put_self id v m = get-put ℕ_discrete id id v m ∙ if_pos (ℕ_discrete id id) refl _ _

held_ne : (id k : ℕ) → k ≢ id → is_held (some id) k ≡ false
held_ne id k n = ground arith

begin-eq :
    (id : ℕ) (e : Entry) (s : State) {j : Job}
    → job_of s id ≡ some j
    → e.aborted ≡ false
    → begin id e s ≡ record s {
      jobs = put ℕ_discrete id (record j { status = running; started = true }) s.jobs;
      saved = put ℕ_discrete id (record j { status = running; started = true }) s.jobs;
      holder = some id;
    }
unfolding begin save
begin-eq id e s h a =
    rw (a, update_job-eq id (λ j. record j { status = running; started = true }) s h)

begin_aborted :
    (id : ℕ) (e : Entry) (s : State) → e.aborted ≡ true → begin id e s ≡ ended_task id e s
unfolding begin
begin_aborted id e s a = rw a

-- The job of an active entry.
active-Job :
    (s : State) (id : ℕ) {e : Entry}
    → Inv s
    → entry_of s id ≡ some e
    → (j : Job) × (job_of s id ≡ some j) × Phase j.status e.aborted e.ended (is_held s.holder id)
active-Job s id {e} v h = elim (Option-cases (job_of s id)) [
  | inl none' ↦ absurd (rw (none', h) at (v.agrees id))
  | inr (j, f) ↦ (j, f, rw (f, h) at (v.agrees id))
]

-- An entry that has ended is of an ended job, and is not held.
ended_Phase :
    (st : Status) (aborted ended held : Bool)
    → Phase st aborted ended held
    → ended ≡ true
    → (is_terminal st ≡ true) × (held ≡ false)
ended_Phase queued a d h p x = cc (p.2)
ended_Phase running a d h p x = cc (p.2)
ended_Phase cancelling a d h p x = cc (p.2)
ended_Phase cancelled a d h p x = (refl, p.1)
ended_Phase completed a d h p x = (refl, p.1)
ended_Phase failed a d h p x = (refl, p.1)

aborted_Phase :
    (st : Status) (aborted ended held : Bool)
    → Phase st aborted ended held
    → aborted ≡ true
    → held ≡ false
    → Phase st aborted true held
aborted_Phase queued a d h p x y = cc (p.0)
aborted_Phase running a d h p x y = cc (p.0)
aborted_Phase cancelling a d h p x y = cc (p.1)
aborted_Phase cancelled a d h p x y = p
aborted_Phase completed a d h p x y = cc (p.0)
aborted_Phase failed a d h p x y = cc (p.0)

held_self : (id : ℕ) → is_held (some id) id ≡ true
held_self id = ground arith

begin-Inv :
    (s : State) (id : ℕ) (e : Entry)
    → Inv s
    → entry_of s id ≡ some e
    → e.ended ≡ false
    → s.holder ≡ none
    → Inv (begin id e s)
begin-Inv s id e v h waits free = begun (active-Job s id v h) (Bool-cases e.aborted)
  where
    begun :
        (j : Job) × (job_of s id ≡ some j) × Phase j.status e.aborted e.ended (is_held s.holder id)
        → (e.aborted ≡ true) ⊎ (e.aborted ≡ false)
        → Inv (begin id e s)
    begun (j, f, phase) (inl a) = rw (begin_aborted id e s a) (
        changed-Inv s (ended_task id e s) id v (put-IsMap ℕ_discrete id _ s.active v.distinct)
          (rw (put_self id (record e { ended = true }) s.active, f)
            (aborted_Phase j.status e.aborted e.ended (is_held s.holder id) phase a (rw free)))
          (λ k n. (refl, put_ne id k _ s.active n, refl)))
    begun (j, f, phase) (inr a) = rw (begin-eq id e s f a) (
        changed-Inv s _ id v v.distinct
          (rw (put_self id (record j { status = running; started = true }) s.jobs, h)
            (a, held_self id, waits))
          (λ k n. (put_ne id k _ s.jobs n, refl, held_ne id k n ∙ sym (rw free))))

drain-Inv :
    (s : State) (id : ℕ) (e : Entry)
    → Inv s
    → entry_of s id ≡ some e
    → e.ended ≡ true
    → Inv (drain id e s)
drain-Inv s id e v h d =
    let (j, f, phase) = active-Job s id v h in
    let (ht, idle) = ended_Phase j.status e.aborted e.ended (is_held s.holder id) phase d in
    rw (drain-eq id e s f) (drained-Inv id e s j v.distinct ht idle v.agrees)

settled_Phase :
    (aborted : Bool) (ending : Ending) (j : Job)
    → Phase (settle_job aborted ending j).status aborted true false
unfolding settle_job
settled_Phase true (resolved o) j = (refl, refl)
settled_Phase false (resolved o) j = (refl, refl, refl)
settled_Phase true (rejected m o) j = (refl, refl)
settled_Phase false (rejected m o) j = (refl, refl, refl)

settle-eq :
    (id : ℕ) (e : Entry) (ending : Ending) (s : State) {j : Job}
    → job_of s id ≡ some j
    → settle id e ending s ≡ record s {
      jobs = put ℕ_discrete id (settle_job e.aborted ending j) s.jobs;
      active = put ℕ_discrete id (record e { ended = true }) s.active;
      holder = none;
    }
unfolding settle
settle-eq id e ending s h = rw (update_job-eq id (settle_job e.aborted ending) s h)

settle-Inv :
    (s : State) (id : ℕ) (e : Entry) (ending : Ending)
    → Inv s
    → entry_of s id ≡ some e
    → s.holder ≡ some id
    → Inv (settle id e ending s)
settle-Inv s id e ending v h held =
    let (j, f, phase) = active-Job s id v h in
    rw (settle-eq id e ending s f) (
      changed-Inv s _ id v (put-IsMap ℕ_discrete id _ s.active v.distinct)
        (rw
          (
            put_self id (settle_job e.aborted ending j) s.jobs,
            put_self id (record e { ended = true }) s.active,
          )
          (settled_Phase e.aborted ending j))
        (λ k n. (put_ne id k _ s.jobs n, put_ne id k _ s.active n, sym (rw held (held_ne id k n)))))

report-Inv : (s : State) (id : ℕ) (text : String) → Inv s → Inv (report id text s)
unfolding report update_job
report-Inv s id text v = elim (Option-cases (job_of s id)) [
  | inl none' ↦ rw (none', update_job) v
  | inr (j, f) ↦ rw (update_job-eq id (λ j. record j { diagnostics = last_units 50000 text }) s f) (
      changed-Inv s _ id v v.distinct
        (rw (put_self id (record j { diagnostics = last_units 50000 text }) s.jobs)
          (same j (entry_of s id) (is_held s.holder id) (rw f at (v.agrees id))))
        (λ k n. (put_ne id k _ s.jobs n, refl, refl)))
]
  where
    same :
        (j : Job) (o : Option Entry) (held : Bool)
        → Agrees (some j) o held
        → Agrees (some (record j { diagnostics = last_units 50000 text })) o held
    same j none held a = a
    same j (some e) held a = a

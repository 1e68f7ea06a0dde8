-- ===== src/ProofJobs/Queue.antt =====
-- proof-jobs.mjs, `createProofJobs`: its state, and the parts of its functions between two awaits.
-- A job is in the Map of its identifier; `db.jobs` lists the same jobs in the same order. A wallet is
-- its number. `holder` is the task that p-queue is running; it gives the place up when the task ends,
-- which is before the `finally` that follows the task.
use oncm.Prelude.{
  ℕ, Bool, true, false, not, Option, none, some, List, [], ◌∷◌, length, keep, leb, ◌==◌,
  if◌then◌else◌, String, Result, ok, throw, ◌>>=◌, ◌>>◌, throw_if, ℕ_discrete,
}
use oncm.Prelude.Keyed.{get, put, delete}
use oncm.ProofJobs.Input.{
  Input, Raw, Error, shutting_down, queue_full, owner_full, unknown_job, not_active, normalize,
  last_units,
}

pub data Status : Type 0 where
  queued running cancelling completed failed cancelled : Status

abbrev pub is_terminal : Status → Bool
is_terminal completed = true
is_terminal failed = true
is_terminal cancelled = true
is_terminal _ = false

abbrev pub is_queued : Status → Bool
is_queued queued = true
is_queued _ = false

-- What the worker's result carries that the queue reads.
pub record Outcome : Type 0 where
  pub certificate : Option ℕ
  pub diagnostics : Option String

pub record Job : Type 0 where
  pub author : ℕ
  pub input : Input
  pub status : Status
  pub diagnostics : String
  pub outcome : Option Outcome
  pub started : Bool
  pub finished : Bool

-- `entry`: the key of its identity, whether its controller was aborted, and whether its task has ended while the `finally` is still to
-- come.
pub record Entry : Type 0 where
  pub key : ℕ
  pub aborted : Bool
  pub ended : Bool

pub record State : Type 0 where
  pub jobs : List (ℕ × Job)
  pub saved : List (ℕ × Job)
  pub active : List (ℕ × Entry)
  pub identities : List (ℕ × ℕ)
  pub closed : Bool
  pub holder : Option ℕ

pub record Settings : Type 0 where
  pub max_pending : ℕ
  pub max_per_owner : ℕ
  pub digest : ℕ → Input → ℕ

abbrev pub job_of : State → ℕ → Option Job
job_of s id = get ℕ_discrete id s.jobs

abbrev pub entry_of : State → ℕ → Option Entry
entry_of s id = get ℕ_discrete id s.active

unfoldable pub save : State → State
save s = record s { saved = s.jobs }

-- an assignment to fields of a job
unfoldable pub update_job : ℕ → (Job → Job) → State → State
update_job id f s = elim (job_of s id) [
  | none ↦ s
  | some j ↦ record s { jobs = put ℕ_discrete id (f j) s.jobs }
]

-- `ownerOf(e.job) === author`
abbrev pub owned_by : ℕ → List (ℕ × Job) → ℕ × Entry → Bool
owned_by author jobs (id, e) = elim (get ℕ_discrete id jobs) [
  | none ↦ false
  | some j ↦ j.author == author
]

-- `if (identities.get(key) === entry) identities.delete(key)`
unfoldable pub forget : ℕ → ℕ → List (ℕ × ℕ) → List (ℕ × ℕ)
forget key id ids = elim (get ℕ_discrete key ids) [
  | none ↦ ids
  | some found ↦ if found == id then delete ℕ_discrete key ids else ids
]

abbrev pub new_job : ℕ → Input → Job
new_job owner input = record {
  author = owner;
  input = input;
  status = queued;
  diagnostics = "";
  outcome = none;
  started = false;
  finished = false;
}

-- The constructor: jobs that a restart interrupted are failed, and none is run again.
abbrev pub interrupted : Job → Job
interrupted j = if is_terminal j.status then j else record j {
  status = failed;
  diagnostics = "API restarted; interrupted job was not automatically restarted.";
  finished = true;
}

unfoldable pub recover : List (ℕ × Job) → List (ℕ × Job)
recover [] = []
recover ((id, j) ∷ jobs) = (id, interrupted j) ∷ recover jobs

unfoldable pub create : List (ℕ × Job) → State
unfolding recover
create jobs = record {
  jobs = recover jobs;
  saved = recover jobs;
  active = [];
  identities = [];
  closed = false;
  holder = none;
}

-- `submit`, with the identifier that `randomUUID` gives: the state, and the job's identifier.
unfoldable pub submit : Settings → ℕ → ℕ → Option Raw → State → Result Error (State × ℕ)
unfolding save
submit c id owner raw s = do
  throw_if s.closed shutting_down
  input ← normalize raw
  let key = c.digest owner input
  elim (get ℕ_discrete key s.identities) [
    | some existing ↦ ok (s, existing)
    | none ↦ do
      throw_if (leb c.max_pending (length s.active)) queue_full
      throw_if (leb c.max_per_owner (length (keep (owned_by owner s.jobs) s.active))) owner_full
      ok (
        save (record s {
          jobs = put ℕ_discrete id (new_job owner input) s.jobs;
          active =
              put ℕ_discrete id (record { key = key; aborted = false; ended = false }) s.active;
          identities = put ℕ_discrete key id s.identities;
        }),
        id,
      )
  ]

-- the `finally` that follows a task
unfoldable pub drain : ℕ → Entry → State → State
unfolding save update_job forget
drain id e s =
    let s1 = update_job id (λ j. record j { finished = true }) s in
    save (record s1 {
      active = delete ℕ_discrete id s1.active;
      identities = forget e.key id s1.identities;
    })

-- the task has ended
abbrev pub ended_task : ℕ → Entry → State → State
ended_task id e s = record s { active = put ℕ_discrete id (record e { ended = true }) s.active }

-- The task begins: an aborted one ends at once.
unfoldable pub begin : ℕ → Entry → State → State
unfolding save update_job
begin id e s =
    if e.aborted
    then ended_task id e s
    else record (save (update_job id (λ j. record j { status = running; started = true }) s)) {
      holder = some id;
    }

-- What becomes of `execute`.
pub data Ending : Type 0 where
  resolved : Outcome → Ending
  rejected : String → Option Outcome → Ending

abbrev pub or_else {ℓ} : {A : Type ℓ} → Option A → A → A
or_else (some a) b = a
or_else none b = b

-- the assignments of the `try` and of the `catch`
unfoldable pub settle_job : Bool → Ending → Job → Job
settle_job true (resolved o) j = record j { status = cancelled; diagnostics = "Job cancelled." }
settle_job false (resolved o) j = record j {
  outcome = some o;
  status = completed;
  diagnostics = or_else o.diagnostics j.diagnostics;
}
settle_job aborted (rejected message o) j = record j {
  status = if aborted then cancelled else failed;
  diagnostics = message;
  outcome = elim o [ none ↦ j.outcome | some r ↦ some r ];
}

unfoldable pub settle : ℕ → Entry → Ending → State → State
unfolding update_job settle_job
settle id e ending s = record (ended_task id e (update_job id (settle_job e.aborted ending) s)) {
  holder = none;
}

-- `onDiagnostics` of the worker: not saved
unfoldable pub report : ℕ → String → State → State
unfolding update_job
report id text s = update_job id (λ j. record j { diagnostics = last_units 50000 text }) s

abbrev pub cancel_text : Bool → String
cancel_text true = "Job cancelled before execution."
cancel_text false = "Cancelling; waiting for worker cleanup."

-- `cancel`, up to its `await`
unfoldable pub cancel : ℕ → ℕ → State → Result Error State
unfolding save forget
cancel owner id s = elim (job_of s id) [
  | none ↦ throw unknown_job
  | some j ↦
      if not (j.author == owner)
      then throw unknown_job
      else if is_terminal j.status
      then ok s
      else elim (entry_of s id) [
        | none ↦ throw not_active
        | some e ↦ ok (
            save (record s {
              jobs =
                  put ℕ_discrete id
                    (record j {
                      status = if is_queued j.status then cancelled else cancelling;
                      diagnostics = cancel_text (is_queued j.status);
                    })
                    s.jobs;
              active = put ℕ_discrete id (record e { aborted = true }) s.active;
              identities =
                  if is_queued j.status then forget e.key id s.identities else s.identities;
            }))
      ]
]

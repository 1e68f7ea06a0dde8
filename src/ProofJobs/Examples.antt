-- ===== src/ProofJobs/Examples.antt =====
-- proof-jobs.mjs: the queue at concrete requests.
use oncm.Prelude.{
  ℕ, ◌≡◌, refl, ◌≤◌, true, false, none, some, List, [], ◌∷◌, length, ok, throw, ℕ_discrete,
}
use oncm.Prelude.Keyed.{get, put}
use oncm.ProofJobs.Input.{Raw, Input, check, normalize, unknown_job, bad_outcome}
use oncm.ProofJobs.Queue.{
  Job, Entry, State, Settings, resolved, queued, running, cancelling, completed, job_of, create,
  submit, drain, begin, settle, report, cancel,
}
use oncm.ProofJobs.Steps.{submits, begins, settles, finishes, cancels, Reach, here, next, Inv}
use oncm.ProofJobs.Steps.Requests.{Submitted, submit-Submitted}
use oncm.ProofJobs.Steps.History.{Reach-Inv, one_busy, Kept, Reach-Kept}
use oncm.ProofJobs.Steps.Resubmission.{submit_live}
use oncm.ProofJobs.Steps.Identities.{Alive}
use oncm.ProofJobs.Steps.Capacity.{Reach-Within, Reach-drains}

program : Unit {0}
unfolding submit normalize drain begin settle report cancel create
program = tt

abbrev settings : Settings
settings = record { max_pending = 2; max_per_owner = 1; digest = λ owner input. owner }

abbrev request : Raw
request = record {
  action = some check;
  source = some "theorem";
  statement_id = none;
  goal_hash = none;
  profile_id = some (some "p");
  outcome = some 1;
  fixture_id = none;
  target_declaration = none;
}

abbrev input : Input
input = record {
  action = check;
  source = "theorem";
  statement_id = none;
  goal_hash = none;
  profile_id = some "p";
  outcome = some 1;
  fixture_id = none;
  target_declaration = none;
}

-- A job that ran when the server stopped.
abbrev old_jobs : List (ℕ × Job)
old_jobs =
    (
      3,
      record {
        author = 9;
        input = input;
        status = running;
        diagnostics = "";
        outcome = none;
        started = true;
        finished = false;
      },
    )
    ∷ []

abbrev start : State
start = create old_jobs

abbrev first_job : Job
first_job = record {
  author = 7;
  input = input;
  status = queued;
  diagnostics = "";
  outcome = none;
  started = false;
  finished = false;
}

abbrev first_entry : Entry
first_entry = record { key = 7; aborted = false; ended = false }

abbrev waiting : State
waiting = record start {
  jobs = put ℕ_discrete 5 first_job start.jobs;
  saved = put ℕ_discrete 5 first_job start.jobs;
  active = (5, first_entry) ∷ [];
  identities = (7, 5) ∷ [];
}

submitted : submit settings 5 7 (some request) start ≡ ok (waiting, 5)
unfolding program get put ℕ_discrete
submitted = refl

submitted_again : submit settings 6 7 (some request) waiting ≡ ok (waiting, 5)
unfolding program get put ℕ_discrete
submitted_again = refl

bad_request :
    submit settings 6 8 (some (record request { outcome = some 3 })) waiting ≡ throw bad_outcome
unfolding program get put ℕ_discrete
bad_request = refl

submit-Submitted_example : Submitted settings 5 7 (some request) start waiting 5
submit-Submitted_example = submit-Submitted settings 5 7 (some request) start waiting 5 submitted

abbrev running_state : State
running_state = begin 5 first_entry waiting

abbrev running_job : Job
running_job = record first_job { status = running; started = true }

runs : job_of running_state 5 ≡ some running_job
unfolding program get put ℕ_discrete
runs = refl

abbrev history : Reach settings start running_state
unfolding program get put ℕ_discrete
history =
    next (next here (submits start 5 7 (some request) waiting 5 refl submitted))
      (begins waiting 5 first_entry refl refl refl)

Reach-Inv_example : Inv running_state
Reach-Inv_example = Reach-Inv settings old_jobs history

one_busy_example : ◌≡◌ {A = ℕ} 5 5
one_busy_example =
    one_busy settings old_jobs 5 5 running_job running_job history runs runs refl refl

Reach-Within_example : length running_state.active ≤ 2
Reach-Within_example = Reach-Within settings old_jobs history

Reach-drains_example : (t : State) × Reach settings running_state t × (length t.active ≡ 0)
Reach-drains_example = Reach-drains settings old_jobs history

abbrev stopping : State
stopping = record running_state {
  jobs =
      put ℕ_discrete 5
        (record running_job {
          status = cancelling;
          diagnostics = "Cancelling; waiting for worker cleanup.";
        })
        running_state.jobs;
  saved =
      put ℕ_discrete 5
        (record running_job {
          status = cancelling;
          diagnostics = "Cancelling; waiting for worker cleanup.";
        })
        running_state.jobs;
  active = (5, record first_entry { aborted = true }) ∷ [];
}

cancelling_runs : cancel 7 5 running_state ≡ ok stopping
unfolding program get put ℕ_discrete
cancelling_runs = refl

not_the_author : cancel 8 5 running_state ≡ throw unknown_job
unfolding program get put ℕ_discrete
not_the_author = refl

abbrev finished : State
finished =
    settle 5 first_entry (resolved (record { certificate = some 1; diagnostics = some "done" }))
      running_state

abbrev finished_job : Job
finished_job = record running_job {
  status = completed;
  diagnostics = "done";
  outcome = some (record { certificate = some 1; diagnostics = some "done" });
}

-- The task has ended, and its `finally` is still to come.
completes : job_of finished 5 ≡ some finished_job
unfolding program get put ℕ_discrete
completes = refl

-- An equal request that comes before the `finally` is given the job that has ended.
submitted_between : submit settings 6 7 (some request) finished ≡ ok (finished, 5)
unfolding program get put ℕ_discrete
submitted_between = refl

abbrev ended : Reach settings start finished
unfolding program get put ℕ_discrete
ended = next history (
    settles running_state 5 first_entry
      (resolved (record { certificate = some 1; diagnostics = some "done" })) refl refl)

abbrev ended_entry : Entry
ended_entry = record first_entry { ended = true }

abbrev drained : State
drained = drain 5 ended_entry finished

-- Later the `finally` runs, and the job is cancelled in vain.
abbrev later : Reach settings finished drained
unfolding program get put ℕ_discrete
later =
    next (next here (finishes finished 5 ended_entry refl refl)) (cancels drained 7 5 drained refl)

Reach-Kept_example : Kept drained 5 finished_job
Reach-Kept_example = Reach-Kept settings old_jobs 5 finished_job ended later completes refl

fresh_id : job_of start 5 ≡ none
unfolding program get put ℕ_discrete
fresh_id = refl

submit_live_example : (i : Input) × (normalize (some request) ≡ ok i) × Alive waiting 5 7
submit_live_example = submit_live settings old_jobs 5 7 5 (some request) here fresh_id submitted

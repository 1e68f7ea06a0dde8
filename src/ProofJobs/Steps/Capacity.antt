-- ===== src/ProofJobs/Steps/Capacity.antt =====
-- proof-jobs.mjs: how many entries are active, and that the queue can always drain.
use oncm.Prelude.{
  ℕ, zero, suc, ◌+◌, ◌≤◌, ◌≡◌, refl, inl, inr, Bool, true, false, Option, none, some, List, [], ◌∷◌,
  length, String, ℕ_discrete, if_pos, arith, Option-cases, Bool-cases, ◌∙◌,
}
use oncm.Prelude.Keyed.{
  get, put, delete, length-put-le, length-put_hit, length-delete-le, length-delete_hit,
}
use oncm.ProofJobs.Queue.{
  Job, Entry, State, Settings, Ending, rejected, ended_task, job_of, entry_of, update_job, drain,
  begin, settle, report, create,
}
use oncm.ProofJobs.Steps.{
  Step, submits, begins, settles, finishes, reports, cancels, closes, Reach, here, next, Agrees,
  is_held, Inv, put_self, drain-eq, begin-eq, begin_aborted, settle-eq, held_self, active-Job,
  begin-Inv, settle-Inv, drain-Inv,
}
use oncm.ProofJobs.Steps.Requests.{submit-Submitted, cancel-Cancelled, Submitted, Cancelled}
use oncm.ProofJobs.Steps.History.{Reach-Inv, Reach_trans}

drain-active :
    (id : ℕ) (e : Entry) (s : State) {j : Job}
    → job_of s id ≡ some j
    → (drain id e s).active ≡ delete ℕ_discrete id s.active
drain-active id e s h = rw (drain-eq id e s h)

-- Where a task ends, the entry stays.
ended_task-active :
    (id : ℕ) (e : Entry) (s : State)
    → entry_of s id ≡ some e
    → length (ended_task id e s).active ≡ length s.active
ended_task-active id e s h = length-put_hit ℕ_discrete id (record e { ended = true }) s.active h

settle-active :
    (id : ℕ) (e : Entry) (ending : Ending) (s : State) {j : Job}
    → job_of s id ≡ some j
    → (settle id e ending s).active ≡ put ℕ_discrete id (record e { ended = true }) s.active
settle-active id e ending s {j} h = rw (settle-eq id e ending s h) refl

begin-active :
    (id : ℕ) (e : Entry) (s : State) {j : Job}
    → job_of s id ≡ some j
    → entry_of s id ≡ some e
    → length (begin id e s).active ≡ length s.active
begin-active id e s h f = elim (Bool-cases e.aborted) [
  | inl a ↦ rw (begin_aborted id e s a) (ended_task-active id e s f)
  | inr a ↦ rw (begin-eq id e s h a) refl
]

report-active : (id : ℕ) (text : String) (s : State) → (report id text s).active ≡ s.active
unfolding report update_job
report-active id text s = ground arith

Step-Within :
    (c : Settings) {s t : State}
    → Step c s t
    → Inv s
    → length s.active ≤ c.max_pending
    → length t.active ≤ c.max_pending
Step-Within c (submits s id owner raw t job fresh h) v w =
    queue (submit-Submitted c id owner raw s t job h)
  where
    queue : Submitted c id owner raw s t job → length t.active ≤ c.max_pending
    queue (input, _, _, inl (_, same)) = rw same w
    queue (input, _, _, inr (_, _, room, _, new)) = rw new (
        omega (
          arith,
          room,
          length-put-le ℕ_discrete id
              (record { key = c.digest owner input; aborted = false; ended = false }) s.active,
        ))
Step-Within c (begins s id e h waits free) v w =
    let (j, f, _) = active-Job s id v h in omega (arith, begin-active id e s f h, w)
Step-Within c (settles s id e ending h held) v w =
    let (j, f, _) = active-Job s id v h in
    rw (settle-active id e ending s f, ended_task-active id e s h) w
Step-Within c (finishes s id e h ended) v w =
    let (j, f, _) = active-Job s id v h in
    rw (drain-active id e s f) (omega (arith, length-delete-le ℕ_discrete id s.active, w))
Step-Within c (reports s id text held) v w = rw (report-active id text s) w
Step-Within c (cancels s owner id t h) v w = apply (cancel-Cancelled owner id s t h)
  where
    apply : Cancelled owner id s t → length t.active ≤ c.max_pending
    apply (j, f, _, inl (_, same)) = rw same w
    apply (j, f, _, inr (live, (e, g, new))) =
        rw (new, length-put_hit ℕ_discrete id (record e { aborted = true }) s.active g) w
Step-Within c (closes s) v w = w

create-Within : (c : Settings) (jobs : List (ℕ × Job)) → length (create jobs).active ≤ c.max_pending
unfolding create
create-Within c jobs = omega arith

-- However requests are submitted and cancelled, at most `maxPending` entries are ever active.
pub Reach-Within :
    (c : Settings) (jobs : List (ℕ × Job)) {s : State}
    → Reach c (create jobs) s
    → length s.active ≤ c.max_pending
Reach-Within c jobs here = create-Within c jobs
Reach-Within c jobs (next r st) = Step-Within c st (Reach-Inv c jobs r) (Reach-Within c jobs r)

-- A state that has one entry less and that the queue gets to.
abbrev Fewer : Settings → State → Type 0
Fewer c s = (t : State) × Reach c s t × Inv t × (length t.active + 1 ≡ length s.active)

held_Entry :
    (s : State) (id : ℕ) → Inv s → s.holder ≡ some id → (e : Entry) × (entry_of s id ≡ some e)
held_Entry s id v held =
    found (job_of s id) (entry_of s id) (is_held s.holder id) (v.agrees id) (rw held (held_self id))
  where
    found :
        (o : Option Job) (p : Option Entry) (h : Bool)
        → Agrees o p h
        → h ≡ true
        → (e : Entry) × (p ≡ some e)
    found o (some e) h a y = (e, refl)
    found none none h a y = cc
    found (some j) none h a y = absurd (cc (a.1))

drain-Fewer :
    (c : Settings) (s : State) (id : ℕ) (e : Entry)
    → Inv s
    → entry_of s id ≡ some e
    → e.ended ≡ true
    → Fewer c s
drain-Fewer c s id e v h ended =
    let (j, f, _) = active-Job s id v h in
    (
      drain id e s,
      next here (finishes s id e h ended),
      drain-Inv s id e v h ended,
      rw (drain-active id e s f) (length-delete_hit ℕ_discrete id s.active h),
    )

-- A step that keeps the number of entries.
later-Fewer :
    (c : Settings) (s t : State)
    → Step c s t
    → length t.active ≡ length s.active
    → Fewer c t
    → Fewer c s
later-Fewer c s t st same (u, r, v, n) = (u, Reach_trans (next here st) r, v, n ∙ same)

settle-Fewer : (c : Settings) (s : State) (id : ℕ) → Inv s → s.holder ≡ some id → Fewer c s
settle-Fewer c s id v held =
    let (e, h) = held_Entry s id v held in
    let (j, f, _) = active-Job s id v h in
    let ending = rejected "" none in
    later-Fewer c s (settle id e ending s) (settles s id e ending h held)
      (rw (settle-active id e ending s f) (ended_task-active id e s h))
      (drain-Fewer c (settle id e ending s) id (record e { ended = true })
        (settle-Inv s id e ending v h held)
        (rw (settle-active id e ending s f) (put_self id _ s.active)) refl)

begin-Fewer :
    (c : Settings) (s : State) (id : ℕ) (e : Entry)
    → Inv s
    → entry_of s id ≡ some e
    → e.ended ≡ false
    → s.holder ≡ none
    → Fewer c s
begin-Fewer c s id e v h waits free =
    let (j, f, _) = active-Job s id v h in
    let w = begin-Inv s id e v h waits free in
    later-Fewer c s (begin id e s) (begins s id e h waits free) (begin-active id e s f h)
      (elim (Bool-cases e.aborted) [
        | inl a ↦
            drain-Fewer c (begin id e s) id (record e { ended = true }) w
              (rw (begin_aborted id e s a) (put_self id _ s.active)) refl
        | inr a ↦ settle-Fewer c (begin id e s) id w (rw (begin-eq id e s f a))
      ])

first_Entry :
    (m : List (ℕ × Entry)) (n : ℕ)
    → length m ≡ n + 1
    → (id : ℕ) × (e : Entry) × (get ℕ_discrete id m ≡ some e)
unfolding get
first_Entry [] n h = absurd (omega (arith, h))
first_Entry ((id, e) ∷ m) n h = (id, e, if_pos (ℕ_discrete id id) refl _ _)

State-Fewer : (c : Settings) (s : State) (n : ℕ) → Inv s → length s.active ≡ n + 1 → Fewer c s
State-Fewer c s n v l = elim (Option-cases s.holder) [
  | inl free ↦
      let (id, e, h) = first_Entry s.active n l in
      elim (Bool-cases e.ended) [
        | inl ended ↦ drain-Fewer c s id e v h ended
        | inr waits ↦ begin-Fewer c s id e v h waits free
      ]
  | inr (id, held) ↦ settle-Fewer c s id v held
]

drains :
    (c : Settings) (n : ℕ) (s : State)
    → Inv s
    → length s.active ≡ n
    → (t : State) × Reach c s t × (length t.active ≡ 0)
drains c zero s v l = (s, here, l)
drains c (suc n) s v l =
    let (t, r, w, m) = State-Fewer c s n v (omega (arith, l)) in
    let (u, q, e) = drains c n t w (omega (arith, l, m)) in (u, Reach_trans r q, e)

-- No entry is stuck: from every state that the queue reaches, whatever was submitted, cancelled or closed, some steps lead to
-- a state where no entry is active.
pub Reach-drains :
    (c : Settings) (jobs : List (ℕ × Job)) {s : State}
    → Reach c (create jobs) s
    → (t : State) × Reach c s t × (length t.active ≡ 0)
Reach-drains c jobs {s} r = drains c (length s.active) s (Reach-Inv c jobs r) refl

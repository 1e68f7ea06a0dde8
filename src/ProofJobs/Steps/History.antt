-- ===== src/ProofJobs/Steps/History.antt =====
-- proof-jobs.mjs: what every history of the queue keeps.
use oncm.Prelude.{
  ℕ, ◌≡◌, refl, sym, ◌≢◌, inl, inr, Bool, true, false, Option, none, some, List, [], ◌∷◌, String,
  ℕ_discrete, if_pos, if_neg, arith, Option-cases, Bool-cases, ap, ◌∙◌,
}
use mathlib.Core.Bool.{false≢true}
use oncm.Prelude.Keyed.{get}
use oncm.ProofJobs.Input.{last_units}
use oncm.ProofJobs.Queue.{
  Status, running, cancelling, completed, failed, cancelled, is_terminal, Job, Entry, State,
  Settings, Ending, job_of, entry_of, new_job, update_job, drain, begin, settle, report, create,
  recover, interrupted, settle_job,
}
use oncm.ProofJobs.Steps.{
  Step, submits, begins, settles, finishes, reports, cancels, closes, Reach, here, next, Phase,
  Agrees, is_held, Inv, put_ne, put_self, drain-eq, begin-eq, begin_aborted, settle-eq, held_self,
  begin-Inv, settle-Inv, drain-Inv, report-Inv, active-Job,
}
use oncm.ProofJobs.Steps.Requests.{submit-Inv, cancel-Inv, submit-Submitted, cancel-Cancelled}

-- Every step keeps the invariant.
pub Step-Inv : (c : Settings) {s t : State} → Step c s t → Inv s → Inv t
Step-Inv c (submits s id owner raw t job fresh h) v = submit-Inv c id owner raw s t job fresh h v
Step-Inv c (begins s id e h waits free) v = begin-Inv s id e v h waits free
Step-Inv c (settles s id e ending h held) v = settle-Inv s id e ending v h held
Step-Inv c (finishes s id e h ended) v = drain-Inv s id e v h ended
Step-Inv c (reports s id text held) v = report-Inv s id text v
Step-Inv c (cancels s owner id t h) v = cancel-Inv owner id s t h v
Step-Inv c (closes s) v = record { distinct = v.distinct; agrees = v.agrees }

recovered : (jobs : List (ℕ × Job)) (id : ℕ) → Agrees (get ℕ_discrete id (recover jobs)) none false
unfolding recover get
recovered [] id = refl
recovered ((k, j) ∷ jobs) id = elim (ℕ_discrete k id) [
  | yes p ↦
      rw (if_pos (ℕ_discrete k id) p (some (interrupted j)) (get ℕ_discrete id (recover jobs)))
        (ended j, refl)
  | no n ↦
      rw (if_neg (ℕ_discrete k id) n (some (interrupted j)) (get ℕ_discrete id (recover jobs)))
        (recovered jobs id)
]
  where
    ended : (j : Job) → is_terminal (interrupted j).status ≡ true
    ended j = ground arith

create-Inv : (jobs : List (ℕ × Job)) → Inv (create jobs)
unfolding create get
create-Inv jobs = record { distinct = tt; agrees = recovered jobs }

-- In every state that the queue reaches from the jobs on disk, a job that has an entry is in the phase
-- that its entry says, and every other job has ended.
pub Reach-Inv : (c : Settings) (jobs : List (ℕ × Job)) {s : State} → Reach c (create jobs) s → Inv s
Reach-Inv c jobs here = create-Inv jobs
Reach-Inv c jobs (next r st) = Step-Inv c st (Reach-Inv c jobs r)

abbrev pub is_busy : Status → Bool
is_busy running = true
is_busy cancelling = true
is_busy _ = false

busy_lives : (st : Status) → is_terminal st ≡ true → is_busy st ≡ true → ⊥
busy_lives running h b = cc
busy_lives cancelling h b = cc
busy_lives _ h b = cc

Phase-is_busy :
    (st : Status) (aborted ended held : Bool)
    → Phase st aborted ended held
    → is_busy st ≡ true
    → held ≡ true
Phase-is_busy running a d h p b = p.1
Phase-is_busy cancelling a d h p b = p.1
Phase-is_busy _ a d h p b = cc

busy_held :
    (j : Job) (o : Option Entry) (held : Bool)
    → Agrees (some j) o held
    → is_busy j.status ≡ true
    → held ≡ true
busy_held j none held a b = absurd (busy_lives j.status a.0 b)
busy_held j (some e) held a b = Phase-is_busy j.status e.aborted e.ended held a b

held_unique : (o : Option ℕ) (i k : ℕ) → is_held o i ≡ true → is_held o k ≡ true → i ≡ k
held_unique none i k p q = cc
held_unique (some n) i k p q = ground arith

-- At most one job is running or being cancelled, however many are submitted.
pub one_busy :
    (c : Settings) (jobs : List (ℕ × Job)) {s : State} (i k : ℕ) (a b : Job)
    → Reach c (create jobs) s
    → job_of s i ≡ some a
    → job_of s k ≡ some b
    → is_busy a.status ≡ true
    → is_busy b.status ≡ true
    → i ≡ k
one_busy c jobs {s} i k a b r hi hk ai bk =
    let v = Reach-Inv c jobs r in
    held_unique s.holder i k (busy_held a (entry_of s i) _ (rw hi at (v.agrees i)) ai)
      (busy_held b (entry_of s k) _ (rw hk at (v.agrees k)) bk)

-- An ended job, but for the note that its task has drained.
abbrev pub Kept : State → ℕ → Job → Type 0
Kept t id j = (b : Bool) × (job_of t id ≡ some (record j { finished = b }))

terminal_idle :
    (j : Job) (o : Option Entry) (held : Bool)
    → Agrees (some j) o held
    → is_terminal j.status ≡ true
    → held ≡ false
terminal_idle j none held a h = a.1
terminal_idle j (some e) held a h = quiet j.status e.aborted e.ended held a h
  where
    quiet :
        (st : Status) (aborted ended held : Bool)
        → Phase st aborted ended held
        → is_terminal st ≡ true
        → held ≡ false
    quiet cancelled a d h p t = p.1
    quiet completed a d h p t = p.1
    quiet failed a d h p t = p.1
    quiet _ a d h p t = cc

ended_aborted :
    (j : Job) (e : Entry) (held : Bool)
    → Agrees (some j) (some e) held
    → is_terminal j.status ≡ true
    → e.ended ≡ false
    → e.aborted ≡ true
ended_aborted j e held a h n = flag j.status e.aborted e.ended held a h n
  where
    flag :
        (st : Status) (aborted ended held : Bool)
        → Phase st aborted ended held
        → is_terminal st ≡ true
        → ended ≡ false
        → aborted ≡ true
    flag cancelled a d h p t n = p.0
    flag completed a d h p t n = cc (p.2)
    flag failed a d h p t n = cc (p.2)
    flag _ a d h p t n = cc

Kept-refl : (t : State) (id : ℕ) (j : Job) → job_of t id ≡ some j → Kept t id j
Kept-refl t id j h = (j.finished, h)

pub drain_ne :
    (id k : ℕ) (e : Entry) (s : State) {j : Job}
    → job_of s k ≡ some j
    → id ≢ k
    → job_of (drain k e s) id ≡ job_of s id
drain_ne id k e s {j} h n =
    rw (drain-eq k e s h) (put_ne k id (record j { finished = true }) s.jobs n)

begin_ne :
    (id k : ℕ) (e : Entry) (s : State) {j : Job}
    → job_of s k ≡ some j
    → id ≢ k
    → job_of (begin k e s) id ≡ job_of s id
begin_ne id k e s {j} h n = elim (Bool-cases e.aborted) [
  | inl a ↦ rw (begin_aborted k e s a) refl
  | inr a ↦
      rw (begin-eq k e s h a) (put_ne k id (record j { status = running; started = true }) s.jobs n)
]

pub settle_ne :
    (id k : ℕ) (e : Entry) (ending : Ending) (s : State) {j : Job}
    → job_of s k ≡ some j
    → id ≢ k
    → job_of (settle k e ending s) id ≡ job_of s id
settle_ne id k e ending s {j} h n =
    let j' = settle_job e.aborted ending j in
    rw (settle-eq k e ending s h) (put_ne k id j' s.jobs n)

report_ne :
    (id k : ℕ) (text : String) (s : State) → id ≢ k → job_of (report k text s) id ≡ job_of s id
unfolding report update_job
report_ne id k text s n = elim (Option-cases (job_of s k)) [
  | inl none' ↦ rw (none', update_job)
  | inr (j, f) ↦
      rw (f, update_job) (put_ne k id (record j { diagnostics = last_units 50000 text }) s.jobs n)
]

held_not_ended :
    (s : State) (id k : ℕ) (j : Job)
    → Inv s
    → s.holder ≡ some k
    → job_of s id ≡ some j
    → is_terminal j.status ≡ true
    → id ≢ k
held_not_ended s id k j v held hj e p =
    let idle = terminal_idle j (entry_of s id) (is_held s.holder id) (rw hj at (v.agrees id)) e in
    false≢true (sym idle ∙ (rw (held, p) (held_self k)))

live_not_ended :
    (a b : Job) → some a ≡ some b → is_terminal a.status ≡ false → is_terminal b.status ≡ true → ⊥
live_not_ended a b h x y =
    false≢true (
      sym x ∙ ap (λ (o : Option Job). elim o [ none ↦ true | some j ↦ is_terminal j.status ]) h ∙ y)

-- A job that has ended keeps its status, its result and its diagnostics at every step.
Step-Kept :
    (c : Settings) {s t : State} (id : ℕ) (j : Job)
    → Step c s t
    → Inv s
    → job_of s id ≡ some j
    → is_terminal j.status ≡ true
    → Kept t id j
Step-Kept c id j (submits s new owner raw t job fresh h) v hj e =
    let (input, _, _, what) = submit-Submitted c new owner raw s t job h in
    elim what [
      | inl (_, same) ↦ rw same (Kept-refl s id j hj)
      | inr (_, _, _, _, new') ↦
          rw new' (j.finished, put_ne new id (new_job owner input) s.jobs (λ p. cc) ∙ hj)
    ]
Step-Kept c id j (begins s k en h waits free) v hj e =
    let (j', hk, _) = active-Job s k v h in
    elim (ℕ_discrete id k) [
      | yes p ↦
          let hj' : job_of s k ≡ some j = rw p at hj in
          let a = ended_aborted j en (is_held s.holder k) (rw (hj', h) at (v.agrees k)) e waits in
          rw (p, begin_aborted k en s a) (j.finished, hj')
      | no n ↦ Kept-refl (begin k en s) id j (begin_ne id k en s hk n ∙ hj)
    ]
Step-Kept c id j (settles s k en ending h held) v hj e =
    let (j', hk, _) = active-Job s k v h in
    Kept-refl (settle k en ending s) id j
      (settle_ne id k en ending s hk (held_not_ended s id k j v held hj e) ∙ hj)
Step-Kept c id j (finishes s k en h ended) v hj e =
    let (j', hk, _) = active-Job s k v h in
    elim (ℕ_discrete id k) [
      | yes p ↦
          let hj' : job_of s k ≡ some j = rw p at hj in
          rw (p, drain-eq k en s hj') (true, put_self k (record j { finished = true }) s.jobs)
      | no n ↦ Kept-refl (drain k en s) id j (drain_ne id k en s hk n ∙ hj)
    ]
Step-Kept c id j (reports s k text held) v hj e =
    Kept-refl (report k text s) id j
      (report_ne id k text s (held_not_ended s id k j v held hj e) ∙ hj)
Step-Kept c id j (cancels s owner k t h) v hj e =
    let (j', hk, _, what) = cancel-Cancelled owner k s t h in
    elim what [
      | inl (_, same) ↦ rw same (Kept-refl s id j hj)
      | inr (live, entry) ↦
          let (en, g, new) = entry in
          rw new (
            j.finished,
            put_ne k id _ s.jobs (λ p. live_not_ended j' j (sym hk ∙ (rw p at hj)) live e) ∙ hj,
          )
    ]
Step-Kept c id j (closes s) v hj e = Kept-refl (record s { closed = true }) id j hj

pub Reach_trans : {c : Settings} {s t u : State} → Reach c s t → Reach c t u → Reach c s u
Reach_trans r here = r
Reach_trans r (next q st) = next (Reach_trans r q) st

-- Once a job has ended, nothing that happens to the queue later changes its status, its result, its diagnostics, its
-- author or its request.
pub Reach-Kept :
    (c : Settings) (jobs : List (ℕ × Job)) {s t : State} (id : ℕ) (j : Job)
    → Reach c (create jobs) s
    → Reach c s t
    → job_of s id ≡ some j
    → is_terminal j.status ≡ true
    → Kept t id j
Reach-Kept c jobs {s} id j r here hj e = Kept-refl s id j hj
Reach-Kept c jobs {s} id j r (next q st) hj e =
    let (b, kept) = Reach-Kept c jobs id j r q hj e in
    let (b', kept') =
      Step-Kept c id (record j { finished = b }) st (Reach-Inv c jobs (Reach_trans r q)) kept e in
    (b', kept')

-- ===== src/ProofJobs/Steps/Identities.antt =====
-- proof-jobs.mjs: what the Map `identities` says of the jobs.
use oncm.Prelude.{
  ℕ, ◌≡◌, refl, sym, ◌≢◌, ◌⊎◌, inl, inr, true, false, none, some, List, if◌then◌else◌, String, ◌==◌,
  ℕ_discrete, if_pos, if_neg, arith, Option-cases, Bool-cases, ap, ◌∙◌,
}
use oncm.Prelude.Keyed.{get, put, delete, IsMap, get-put, get-delete, put-IsMap, delete-IsMap}
use oncm.ProofJobs.Input.{Input, last_units}
use oncm.ProofJobs.Queue.{
  running, cancelling, cancelled, is_terminal, is_queued, Job, Entry, State, Settings, Ending,
  job_of, entry_of, update_job, forget, new_job, drain, ended_task, begin, settle, report,
  settle_job,
}
use oncm.ProofJobs.Steps.{
  Inv, put_ne, put_self, drain-eq, begin-eq, begin_aborted, settle-eq, update_job-eq, active-Job,
}
use oncm.ProofJobs.Steps.Requests.{enqueued, cancelled_state}

-- The job has an entry that carries the key, and has not ended but by its task, whose `finally` is still to come.
abbrev pub Alive : State → ℕ → ℕ → Type 0
Alive s id key =
    (e : Entry) × (j : Job) × (entry_of s id ≡ some e)
    × (e.key ≡ key)
    × (job_of s id ≡ some j)
    × ((is_terminal j.status ≡ false) ⊎ (e.ended ≡ true))

pub record Named (s : State) : Type 0 where
  pub distinct : IsMap ℕ_discrete s.identities
  pub alive : (key id : ℕ) → get ℕ_discrete key s.identities ≡ some id → Alive s id key

forget-IsMap :
    (key id : ℕ) (ids : List (ℕ × ℕ)) → IsMap ℕ_discrete ids → IsMap ℕ_discrete (forget key id ids)
unfolding forget
forget-IsMap key id ids m = elim (Option-cases (get ℕ_discrete key ids)) [
  | inl e ↦ rw (e, forget) m
  | inr (found, e) ↦ elim (Bool-cases (found == id)) [
    | inl b ↦ rw (e, b, forget) (delete-IsMap ℕ_discrete key ids m)
    | inr b ↦ rw (e, b, forget) m
  ]
]

-- What is left was there, and is not what was to be forgotten.
get-forget :
    (key id k i : ℕ) (ids : List (ℕ × ℕ))
    → IsMap ℕ_discrete ids
    → get ℕ_discrete k (forget key id ids) ≡ some i
    → (get ℕ_discrete k ids ≡ some i) × (key ≡ k → i ≢ id)
unfolding forget
get-forget key id k i ids m h = elim (Option-cases (get ℕ_discrete key ids)) [
  | inl e ↦ let g : get ℕ_discrete k ids ≡ some i = rw (e, forget) at h in (g, λ p q. cc (e, g, p))
  | inr (found, e) ↦ elim (Bool-cases (found == id)) [
    | inl b ↦
        let g : get ℕ_discrete k (delete ℕ_discrete key ids) ≡ some i = rw (e, b, forget) at h in
        elim (ℕ_discrete key k) [
          | yes p ↦
              let gone : get ℕ_discrete k (delete ℕ_discrete key ids) ≡ none =
                get-delete ℕ_discrete key k ids m ∙ if_pos (ℕ_discrete key k) p _ _ in
              absurd (cc (g, gone))
          | no n ↦
              let stays : get ℕ_discrete k (delete ℕ_discrete key ids) ≡ get ℕ_discrete k ids =
                get-delete ℕ_discrete key k ids m ∙ if_neg (ℕ_discrete key k) n _ _ in
              (sym stays ∙ g, λ p q. n p)
        ]
    | inr b ↦
        let g : get ℕ_discrete k ids ≡ some i = rw (e, b, forget) at h in
        (g, λ p q. (let same : found ≡ i = cc (e, g, p) in ground (arith, same, q, b)))
  ]
]

-- After the key of an entry is forgotten, what is true of the other jobs is enough.
forgotten-Named :
    (s t : State) (id : ℕ) (e : Entry)
    → Named s
    → entry_of s id ≡ some e
    → t.identities ≡ forget e.key id s.identities
    → ((k : ℕ) → k ≢ id → (job_of t k ≡ job_of s k) × (entry_of t k ≡ entry_of s k))
    → Named t
forgotten-Named s t id e v h same others = record {
  distinct = rw same (forget-IsMap e.key id s.identities v.distinct);
  alive = λ key i g.
      let (g', apart) = get-forget e.key id key i s.identities v.distinct (rw same at g) in
      let (e', j, f, k, fj, live) = v.alive key i g' in
      let n : i ≢ id = λ p. apart (entry_key s id i e e' key p h f k) p in
      let (a, b) = others i n in (e', j, b ∙ f, k, a ∙ fj, live);
}
  where
    entry_key :
        (s : State) (id i : ℕ) (e e' : Entry) (key : ℕ)
        → i ≡ id
        → entry_of s id ≡ some e
        → entry_of s i ≡ some e'
        → e'.key ≡ key
        → e.key ≡ key
    entry_key s id i e e' key p h f k =
        let f' : entry_of s id ≡ some e' = rw p at f in
        let same : e ≡ e' = cc (h, f') in ap (λ (x : Entry). x.key) same ∙ k

-- A change that keeps the Map, and each job that it names alive.
same-Named :
    (s t : State)
    → Named s
    → t.identities ≡ s.identities
    → ((k key : ℕ) → Alive s k key → Alive t k key)
    → Named t
same-Named s t v same kept = record {
  distinct = rw same v.distinct;
  alive = λ key i g. kept i key (v.alive key i (rw same at g));
}

pub drain-Named :
    (s : State) (id : ℕ) (e : Entry) {j : Job}
    → Named s
    → entry_of s id ≡ some e
    → job_of s id ≡ some j
    → IsMap ℕ_discrete s.active
    → Named (drain id e s)
drain-Named s id e {j} v h f m = rw (drain-eq id e s f) (
    forgotten-Named s _ id e v h refl (λ k n. (
      put_ne id k (record j { finished = true }) s.jobs n,
      get-delete ℕ_discrete id k s.active m ∙ if_neg (ℕ_discrete id k) (λ p. n (sym p)) _ _,
    )))

-- A change of one job and of entries, whose keys stay.
Alive-job_of :
    (s t : State) (id : ℕ) (j j' : Job)
    → job_of s id ≡ some j
    → job_of t id ≡ some j'
    → ((e : Entry)
        → entry_of t id ≡ some e
        → is_terminal j.status ≡ false
        → (is_terminal j'.status ≡ false) ⊎ (e.ended ≡ true))
    → ((k : ℕ) → k ≢ id → job_of t k ≡ job_of s k)
    → ((k : ℕ) (e : Entry)
        → entry_of s k ≡ some e
        → (e' : Entry) × (entry_of t k ≡ some e')
          × (e'.key ≡ e.key)
          × (e.ended ≡ true → e'.ended ≡ true))
    → (k key : ℕ) → Alive s k key
    → Alive t k key
Alive-job_of s t id j j' f f' lives others entries k key (e, x, h, q, g, live) =
    let (e', h', q', stays) = entries k e h in
    elim (ℕ_discrete k id) [
      | yes p ↦
          let g' : job_of s id ≡ some x = rw p at g in
          let same : x ≡ j = cc (f, g') in
          rw p (
            e',
            j',
            (rw p at h'),
            q' ∙ q,
            f',
            elim live [
              | inl l ↦
                  lives e' (rw p at h') (ap (λ (z : Job). is_terminal z.status) (sym same) ∙ l)
              | inr l ↦ inr (stays l)
            ],
          )
      | no n ↦
          (e', x, h', q' ∙ q, others k n ∙ g, elim live [ inl l ↦ inl l | inr l ↦ inr (stays l) ])
    ]

put_entry :
    (s : State) (id : ℕ) (e e' : Entry)
    → entry_of s id ≡ some e
    → e'.key ≡ e.key
    → (e.ended ≡ true → e'.ended ≡ true)
    → (k : ℕ) (x : Entry) → entry_of s k ≡ some x
    → (y : Entry) × (get ℕ_discrete k (put ℕ_discrete id e' s.active) ≡ some y)
      × (y.key ≡ x.key)
      × (x.ended ≡ true → y.ended ≡ true)
put_entry s id e e' h key stays k x g = elim (ℕ_discrete k id) [
  | yes p ↦
      let g' : entry_of s id ≡ some x = rw p at g in
      let same : x ≡ e = cc (h, g') in rw (p, same) (e', put_self id _ s.active, key, stays)
  | no n ↦ (x, put_ne id k _ s.active n ∙ g, refl, λ d. d)
]

pub begin-Named :
    (s : State) (id : ℕ) (e : Entry)
    → Inv s
    → Named s
    → entry_of s id ≡ some e
    → Named (begin id e s)
begin-Named s id e w v h =
    let (j, f, _) = active-Job s id w h in
    elim (Bool-cases e.aborted) [
      | inl a ↦ rw (begin_aborted id e s a) (
          same-Named s (ended_task id e s) v refl (
            Alive-job_of s (ended_task id e s) id j j f f (λ _ _ live. inl live) (λ k n. refl)
              (put_entry s id e (record e { ended = true }) h refl (λ _. refl))))
      | inr a ↦
          let jobs' = put ℕ_discrete id (record j { status = running; started = true }) s.jobs in
          let t : State = record s { jobs = jobs'; saved = jobs'; holder = some id } in
          rw (begin-eq id e s f a) (
            same-Named s t v refl (
              Alive-job_of s t id j (record j { status = running; started = true }) f
                (put_self id _ s.jobs) (λ _ _ _. inl refl) (λ k n. put_ne id k _ s.jobs n)
                (λ k x g. (x, g, refl, λ d. d))))
    ]

pub settle-Named :
    (s : State) (id : ℕ) (e : Entry) (ending : Ending)
    → Inv s
    → Named s
    → entry_of s id ≡ some e
    → Named (settle id e ending s)
settle-Named s id e ending w v h =
    let (j, f, _) = active-Job s id w h in
    let j' = settle_job e.aborted ending j in
    let e' : Entry = record e { ended = true } in
    rw (settle-eq id e ending s f) (
      same-Named s _ v refl (
        Alive-job_of s
          (record s {
            jobs = put ℕ_discrete id j' s.jobs;
            active = put ℕ_discrete id e' s.active;
            holder = none;
          })
          id j j' f (put_self id j' s.jobs)
          (λ x g _. inr (ended_of x (sym g ∙ put_self id e' s.active)))
          (λ k n. put_ne id k _ s.jobs n) (put_entry s id e e' h refl (λ _. refl))))
  where
    ended_of : (x : Entry) → some x ≡ some (record e { ended = true }) → x.ended ≡ true
    ended_of x g =
        let same : x ≡ record e { ended = true } = cc g in ap (λ (z : Entry). z.ended) same

pub report-Named : (s : State) (id : ℕ) (text : String) → Named s → Named (report id text s)
unfolding report update_job
report-Named s id text v = elim (Option-cases (job_of s id)) [
  | inl none' ↦ rw (none', update_job) v
  | inr (j, f) ↦ rw (update_job-eq id (λ j. record j { diagnostics = last_units 50000 text }) s f) (
      same-Named s
        (record s {
          jobs = put ℕ_discrete id (record j { diagnostics = last_units 50000 text }) s.jobs;
        })
        v refl
        (Alive-job_of s
          (record s {
            jobs = put ℕ_discrete id (record j { diagnostics = last_units 50000 text }) s.jobs;
          })
          id j (record j { diagnostics = last_units 50000 text }) f (put_self id _ s.jobs)
          (λ _ _ live. inl live) (λ k n. put_ne id k _ s.jobs n) (λ k x g. (x, g, refl, λ d. d))))
]

pub cancelled-Named :
    (s : State) (id : ℕ) (j : Job) (e : Entry)
    → Named s
    → job_of s id ≡ some j
    → entry_of s id ≡ some e
    → Named (cancelled_state id j e s)
cancelled-Named s id j e v f h = elim (Bool-cases (is_queued j.status)) [
  | inl waits ↦
      forgotten-Named s (cancelled_state id j e s) id e v h (rw waits refl)
        (λ k n. (put_ne id k _ s.jobs n, put_ne id k _ s.active n))
  | inr runs ↦
      let stops : is_terminal (if is_queued j.status then cancelled else cancelling) ≡ false =
        rw runs refl in
      same-Named s (cancelled_state id j e s) v (rw runs refl) (
        Alive-job_of s (cancelled_state id j e s) id j _ f (put_self id _ s.jobs)
          (λ _ _ _. inl stops) (λ k n. put_ne id k _ s.jobs n)
          (put_entry s id e (record e { aborted = true }) h refl (λ d. d)))
]

pub enqueued-Named :
    (c : Settings) (id owner : ℕ) (input : Input) (s : State)
    → Inv s
    → Named s
    → job_of s id ≡ none
    → Named (enqueued c id owner input s)
enqueued-Named c id owner input s w v fresh = record {
  distinct = put-IsMap ℕ_discrete (c.digest owner input) id s.identities v.distinct;
  alive = λ key i g. elim (ℕ_discrete (c.digest owner input) key) [
    | yes p ↦
        let e : some id ≡ some i =
          sym (
            get-put ℕ_discrete (c.digest owner input) key id s.identities
            ∙ if_pos (ℕ_discrete (c.digest owner input) key) p _ _)
          ∙ g in
        let same : id ≡ i = cc e in
        rw (sym same) (
          record { key = c.digest owner input; aborted = false; ended = false },
          new_job owner input,
          put_self id _ s.active,
          p,
          put_self id _ s.jobs,
          inl refl,
        )
    | no n ↦
        let old : get ℕ_discrete key s.identities ≡ some i =
          sym (
            get-put ℕ_discrete (c.digest owner input) key id s.identities
            ∙ if_neg (ℕ_discrete (c.digest owner input) key) n _ _)
          ∙ g in
        let (e, j, f, k, fj, live) = v.alive key i old in
        let apart : i ≢ id = λ p. nothing j (sym fj ∙ (rw (sym p) at fresh)) in
        (e, j, put_ne id i _ s.active apart ∙ f, k, put_ne id i _ s.jobs apart ∙ fj, live)
  ];
}
  where
    nothing : (j : Job) → some j ≡ none → ⊥
    nothing j e = cc

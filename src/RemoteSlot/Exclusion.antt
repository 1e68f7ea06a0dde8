-- ===== src/RemoteSlot/Exclusion.antt =====
-- remote-slot.mjs: what happens when several processes use one directory.
use oncm.Prelude.{
  ℕ, ◌≡◌, refl, ◌∙◌, ◌⊎◌, inl, inr, Bool, true, false, Option, none, some, List, [], ◌∷◌, ◌++◌,
  is_same_iff, ok, >>=-eq-ok, Result-cases, arith, Bool-cases,
}
use oncm.RemoteSlot.{
  Request, Slot, File, missing, corrupt, holds, same, load, claim, release, Operation, claiming,
  releasing, run, State, admits, enter, leave,
}

-- A process whose operation fails removes the lock; one that dies leaves it.
pub data Step : State → State → Type 0 where
  enters : (s t : State) (absolute : Bool) (op : Operation) → enter absolute op s ≡ ok t → Step s t
  reads :
      (s : State) (op : Operation) (before after : List (Operation × Option File))
      → s.running ≡ before ++ ((op, none) ∷ after)
      → Step s (record s { running = before ++ ((op, some s.file) ∷ after) })
  leaves :
      (s : State) (op : Operation) (read : File) (before after : List (Operation × Option File))
      → s.running ≡ before ++ ((op, some read) ∷ after)
      → Step s (leave op read (before ++ after) s)
  fails :
      (s : State) (x : Operation × Option File) (before after : List (Operation × Option File))
      → s.running ≡ before ++ (x ∷ after)
      → Step s (record s { lock = false; running = before ++ after })
  dies :
      (s : State) (x : Operation × Option File) (before after : List (Operation × Option File))
      → s.running ≡ before ++ (x ∷ after)
      → Step s (record s { running = before ++ after })

pub data Reach (s : State) : State → Type 0 where
  here : Reach s s
  next : {t u : State} → Reach s t → Step t u → Reach s u

-- At most one operation is running, while the lock is there, and what it has read is the file.
abbrev pub Exclusive : List (Operation × Option File) → Bool → File → Type 0
Exclusive [] lock file = Unit
Exclusive ((op, none) ∷ []) lock file = lock ≡ true
Exclusive ((op, some read) ∷ []) lock file = (lock ≡ true) × (read ≡ file)
Exclusive (x ∷ y ∷ zs) lock file = ⊥

same-eq : (a b : Request) → same a b ≡ true → a ≡ b
same-eq a b h =
    let d : a.digest ≡ b.digest = ground (arith, is_same_iff a.digest b.digest) in
    let c : a.commit ≡ b.commit = ground (arith, is_same_iff a.commit b.commit) in
    let r : a.repository ≡ b.repository = ground (arith, is_same_iff a.repository b.repository) in
    cc

-- A claim that succeeds leaves the slot that it gives in the file, for the request that was claimed; a slot that was there
-- stays, with its token.
pub claim-Claimed :
    (r : Request) (token : ℕ) (file left : File) (s : Slot)
    → claim r token file ≡ ok (left, s)
    → (left ≡ holds s)
      × (s.request ≡ r)
      × ((file ≡ holds s) ⊎ ((file ≡ missing) × (s.token ≡ token)))
unfolding claim load
claim-Claimed r token missing left s h = ground arith
claim-Claimed r token corrupt left s h = ground arith
claim-Claimed r token (holds x) left s h = elim (Bool-cases (same x.request r)) [
  | inl e ↦ let q = same-eq x.request r e in ground arith
  | inr e ↦ ground arith
]

enter-eq :
    (absolute : Bool) (op : Operation) (s t : State)
    → enter absolute op s ≡ ok t
    → (s.lock ≡ false) × (t ≡ record s { lock = true; running = (op, none) ∷ s.running })
unfolding enter
enter-eq absolute op s t h =
    let (_, _, h1) = >>=-eq-ok (admits absolute op) _ h in
    elim (Bool-cases s.lock) [ inr free ↦ (free, ground arith) | inl held ↦ ground arith ]

-- Where the lock is not there, nothing runs.
unlocked :
    (xs : List (Operation × Option File)) (lock : Bool) (file : File)
    → Exclusive xs lock file
    → lock ≡ false
    → xs ≡ []
unlocked [] lock file v h = refl
unlocked ((op, none) ∷ []) lock file v h = cc
unlocked ((op, some read) ∷ []) lock file v h = cc (v.0)
unlocked (x ∷ y ∷ zs) lock file v h = absurd v

-- Nothing else runs.
alone :
    (before after : List (Operation × Option File)) (x : Operation × Option File) (lock : Bool)
    (file : File)
    → Exclusive (before ++ (x ∷ after)) lock file
    → (before ≡ []) × (after ≡ [])
alone [] [] x lock file v = (refl, refl)
alone [] (y ∷ after) x lock file v = absurd v
alone (b ∷ []) after x lock file v = absurd v
alone (b ∷ c ∷ before) after x lock file v = absurd v

-- the lock and the file, where an operation runs
held_by :
    (before after : List (Operation × Option File)) (x : Operation × Option File) (s : State)
    → s.running ≡ before ++ (x ∷ after)
    → Exclusive s.running s.lock s.file
    → (before ≡ []) × (after ≡ []) × Exclusive (x ∷ []) s.lock s.file
held_by before after x s h v =
    let w : Exclusive (before ++ (x ∷ after)) s.lock s.file = rw h at v in
    let (a, b) = alone before after x s.lock s.file w in (a, b, rw (a, b) at w)

leave-running :
    (op : Operation) (read : File) (others : List (Operation × Option File)) (s : State)
    → (leave op read others s).running ≡ others
unfolding leave
leave-running op read others s = elim (Result-cases (run op read)) [
  | inl (_, e) ↦ rw (e, leave) refl
  | inr (_, e) ↦ rw (e, leave) refl
]

Step-Exclusive :
    {s t : State} → Step s t → Exclusive s.running s.lock s.file → Exclusive t.running t.lock t.file
Step-Exclusive (enters s t absolute op h) v =
    let (free, new) = enter-eq absolute op s t h in
    rw (new, unlocked s.running s.lock s.file v free) refl
Step-Exclusive (reads s op before after h) v =
    let (a, b, w) = held_by before after (op, none) s h v in rw (a, b) (w, refl)
Step-Exclusive (leaves s op read before after h) v =
    let (a, b, w) = held_by before after (op, some read) s h v in
    rw (leave-running op read (before ++ after) s, a, b) tt
Step-Exclusive (fails s x before after h) v =
    let (a, b, w) = held_by before after x s h v in rw (a, b) tt
Step-Exclusive (dies s x before after h) v =
    let (a, b, w) = held_by before after x s h v in rw (a, b) tt

-- Whatever processes share the directory, and wherever they are interrupted, at most one operation runs, and the file is as it has read it:
-- nobody has written between its reading and its writing.
pub Reach-Exclusive : {s t : State} → s.running ≡ [] → Reach s t → Exclusive t.running t.lock t.file
Reach-Exclusive idle here = rw idle tt
Reach-Exclusive idle (next r st) = Step-Exclusive st (Reach-Exclusive idle r)

-- Of the same request and with the same token.
abbrev pub Matches : Slot → Slot → Type 0
Matches a b = (a.request ≡ b.request) × (a.token ≡ b.token)

-- A slot in the file is still there, or a release of that very slot is what has just removed it.
abbrev pub Survives : Slot → State → State → Type 0
Survives x s t =
    (t.file ≡ holds x)
    ⊎ ((y : Slot) × (before after : List (Operation × Option File)) × (s.running
          ≡ before ++ ((releasing y, some (holds x)) ∷ after))
        × Matches x y
        × (t.file ≡ missing))

run_claim :
    (r : Request) (token : ℕ) (x : Slot) (left : File)
    → run (claiming r token) (holds x) ≡ ok left
    → left ≡ holds x
unfolding run claim load
run_claim r token x left h = ground arith

run_release :
    (y x : Slot) (left : File)
    → run (releasing y) (holds x) ≡ ok left
    → (left ≡ missing) × Matches x y
unfolding run release load
run_release y x left h = elim (Bool-cases (same x.request y.request)) [
  | inl e ↦ let q = same-eq x.request y.request e in ground arith
  | inr e ↦ ground arith
]

leave-Survives :
    (op : Operation) (x : Slot) (before after : List (Operation × Option File)) (s : State)
    → s.running ≡ before ++ ((op, some (holds x)) ∷ after)
    → s.file ≡ holds x
    → Survives x s (leave op (holds x) (before ++ after) s)
unfolding leave
leave-Survives (claiming r token) x before after s h f =
    elim (Result-cases (run (claiming r token) (holds x))) [
      | inl (_, e) ↦ inl (rw (e, leave) f)
      | inr (left, e) ↦ inl (rw (e, leave) (run_claim r token x left e))
    ]
leave-Survives (releasing y) x before after s h f =
    elim (Result-cases (run (releasing y) (holds x))) [
      | inl (_, e) ↦ inl (rw (e, leave) f)
      | inr (left, e) ↦
          let (gone, m) = run_release y x left e in inr (y, before, after, h, m, rw (e, leave) gone)
    ]

Step-Survives :
    {s t : State} (x : Slot)
    → Step s t
    → Exclusive s.running s.lock s.file
    → s.file ≡ holds x
    → Survives x s t
Step-Survives x (enters s t absolute op h) v f = inl (rw (enter-eq absolute op s t h).1 f)
Step-Survives x (reads s op before after h) v f = inl f
Step-Survives x (leaves s op read before after h) v f =
    let (_, _, w) = held_by before after (op, some read) s h v in
    let same_file : read ≡ holds x = w.1 ∙ f in
    rw same_file (leave-Survives op x before after s (rw same_file at h) f)
Step-Survives x (fails s y before after h) v f = inl f
Step-Survives x (dies s y before after h) v f = inl f

-- A slot in the file is neither replaced nor removed by any step of any number of processes, whose operations may run side by side but for
-- the lock, except by the release of the same request with the same token; in particular no claim of another request takes it, and an
-- operation that fails or is interrupted leaves it.
pub Reach-Survives :
    {s t u : State} (x : Slot)
    → s.running ≡ []
    → Reach s t
    → Step t u
    → t.file ≡ holds x
    → Survives x t u
Reach-Survives x idle r st f = Step-Survives x st (Reach-Exclusive idle r) f

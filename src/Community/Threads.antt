-- ===== src/Community/Threads.antt =====
-- community.mjs: the comments that are stored, and what they reply to.
use oncm.Prelude.{
  utf16_length, ℕ, ◌≤◌, ◌≡◌, refl, sym, ◌∙◌, ap, ◌||◌, inl, inr, Bool, true, false, not, Option,
  none, some, List, [], ◌∷◌, ◌++◌, ltb, ◌==◌, String, ok, throw_if-ok, ok-injective, arith,
  Option-cases, Bool-cases, is_same, is_same_iff, All, All-append,
}
use oncm.Community.Texts.{trim, is_empty, length-trim-le}
use oncm.Community.{
  Error, bad_comment, bad_text, Comment, Db, comment_of, update_comment, revise, comment_text,
  check_parent,
}
use oncm.Community.Votes.{vote-Voted}
use oncm.Community.History.{
  Step, creates, edits, votes_for, describes, Reach, here, next, create-eq, edit-Edited,
  update_profile-eq,
}

-- A text that is not blank and has at most 4000 units.
abbrev pub Sized : Comment → Type 0
Sized c = (is_empty c.text ≡ false) × (utf16_length c.text ≤ 4000)

comment_text-Sized :
    (e : Error) (text : Option String) (kept : String)
    → comment_text e text ≡ ok kept
    → (is_empty kept ≡ false) × (utf16_length kept ≤ 4000)
unfolding comment_text
comment_text-Sized e none kept h = cc
comment_text-Sized e (some s) kept h =
    elim (Bool-cases (is_empty (trim s) || ltb 4000 (utf16_length s))) [
      | inl bad ↦ cc (rw bad at h)
      | inr good ↦
          let same : trim s ≡ kept = ok-injective (rw good at h) in
          let (a, b) = parts (is_empty (trim s)) (ltb 4000 (utf16_length s)) good in
          let le : utf16_length s ≤ 4000 = ground arith in
          let short : utf16_length (trim s) ≤ 4000 = omega (arith, length-trim-le s, le) in
          (rw same at a, rw same at short)
    ]
  where
    parts : (a b : Bool) → (a || b) ≡ false → (a ≡ false) × (b ≡ false)
    parts true b h = cc
    parts false b h = (refl, h)

-- The comment that this one replies to stands before it, and is on the same statement.
abbrev pub RepliesTo : List Comment → Comment → Type 0
RepliesTo before c = elim c.parent [
  | none ↦ Unit {0}
  | some p ↦ (q : Comment) × (comment_of p before ≡ some q) × (q.statement ≡ c.statement)
]

abbrev pub Threaded : List Comment → List Comment → Type 0
Threaded before [] = Unit
Threaded before (c ∷ cs) = RepliesTo before c × Threaded (before ++ c ∷ []) cs

Threaded-append :
    (before cs : List Comment) (c : Comment)
    → Threaded before cs
    → RepliesTo (before ++ cs) c
    → Threaded before (cs ++ c ∷ [])
Threaded-append before [] c h r = (rw (nil before) at r, tt)
  where
    nil : (xs : List Comment) → xs ++ [] ≡ xs
    nil [] = refl
    nil (x ∷ xs) = ap (◌∷◌ x) (nil xs)
Threaded-append before (x ∷ cs) c h r =
    (h.0, Threaded-append (before ++ x ∷ []) cs c h.1 (rw (assoc before x cs) at r))
  where
    assoc :
        (xs : List Comment) (x : Comment) (cs : List Comment) → xs ++ x ∷ cs ≡ (xs ++ x ∷ []) ++ cs
    assoc [] x cs = refl
    assoc (y ∷ xs) x cs = ap (◌∷◌ y) (assoc xs x cs)

-- The lists have the same identifiers and statements, one by one.
abbrev Follows : List Comment → List Comment → Type 0
Follows [] [] = Unit
Follows (x ∷ xs) (y ∷ ys) = (x.id ≡ y.id) × (x.statement ≡ y.statement) × Follows xs ys
Follows _ _ = ⊥

Follows-refl : (xs : List Comment) → Follows xs xs
Follows-refl [] = tt
Follows-refl (x ∷ xs) = (refl, refl, Follows-refl xs)

Follows-append :
    (xs ys : List Comment) (c d : Comment)
    → c.id ≡ d.id
    → c.statement ≡ d.statement
    → Follows xs ys
    → Follows (xs ++ c ∷ []) (ys ++ d ∷ [])
Follows-append [] [] c d i s v = (i, s, tt)
Follows-append (x ∷ xs) (y ∷ ys) c d i s v = (v.0, v.1, Follows-append xs ys c d i s v.2)
Follows-append [] (y ∷ ys) c d i s v = absurd v
Follows-append (x ∷ xs) [] c d i s v = absurd v

Follows-comment_of :
    (p : ℕ) (xs ys : List Comment) (q : Comment)
    → Follows xs ys
    → comment_of p xs ≡ some q
    → (r : Comment) × (comment_of p ys ≡ some r) × (r.statement ≡ q.statement)
Follows-comment_of p [] [] q v h = cc
Follows-comment_of p [] (y ∷ ys) q v h = absurd v
Follows-comment_of p (x ∷ xs) [] q v h = absurd v
Follows-comment_of p (x ∷ xs) (y ∷ ys) q (i, s, v) h = elim (Bool-cases (x.id == p)) [
  | inl e ↦
      let e' : (y.id == p) ≡ true = rw i at e in
      let same : x ≡ q = cc (rw e at h) in
      rw e' (y, refl, sym s ∙ ap (λ (z : Comment). z.statement) same)
  | inr e ↦
      let e' : (y.id == p) ≡ false = rw i at e in rw e' (Follows-comment_of p xs ys q v (rw e at h))
]

RepliesTo-Follows :
    (xs ys : List Comment) (c d : Comment)
    → c.parent ≡ d.parent
    → c.statement ≡ d.statement
    → Follows xs ys
    → RepliesTo xs c
    → RepliesTo ys d
RepliesTo-Follows xs ys c d e s v r = elim (Option-cases c.parent) [
  | inl none' ↦ let none'' : d.parent ≡ none = sym e ∙ none' in rw none'' tt
  | inr (p, f) ↦
      let f' : d.parent ≡ some p = sym e ∙ f in
      let (q, g, t) = rw f at r in
      let (q', g', t') = Follows-comment_of p xs ys q v g in rw f' (q', g', t' ∙ t ∙ s)
]

-- A change that keeps what a thread is made of.
abbrev KeepsThread : (Comment → Comment) → Type 0
KeepsThread f =
    (c : Comment) → ((f c).id ≡ c.id) × ((f c).statement ≡ c.statement) × ((f c).parent ≡ c.parent)

Threaded-Follows : (xs ys cs : List Comment) → Follows xs ys → Threaded xs cs → Threaded ys cs
Threaded-Follows xs ys [] v h = tt
Threaded-Follows xs ys (c ∷ cs) v (r, h) = (
  RepliesTo-Follows xs ys c c refl refl v r,
  Threaded-Follows (xs ++ c ∷ []) (ys ++ c ∷ []) cs (Follows-append xs ys c c refl refl v) h,
)

Threaded-update :
    (id : ℕ) (f : Comment → Comment) (xs cs : List Comment)
    → KeepsThread f
    → Threaded xs cs
    → Threaded xs (update_comment id f cs)
unfolding update_comment
Threaded-update id f xs [] k h = tt
Threaded-update id f xs (c ∷ cs) k (r, h) = elim (Bool-cases (c.id == id)) [
  | inl e ↦
      let (i, s, p) = k c in
      rw e (
        RepliesTo-Follows xs xs c (f c) (sym p) (sym s) (Follows-refl xs) r,
        Threaded-Follows (xs ++ c ∷ []) (xs ++ f c ∷ []) cs
            (Follows-append xs xs c (f c) (sym i) (sym s) (Follows-refl xs)) h,
      )
  | inr e ↦ rw e (r, Threaded-update id f (xs ++ c ∷ []) cs k h)
]

check_parent-RepliesTo :
    (cs : List Comment) (c : Comment)
    → check_parent c.statement c.parent cs ≡ ok tt
    → RepliesTo cs c
unfolding check_parent
check_parent-RepliesTo cs c h = elim (Option-cases c.parent) [
  | inl none' ↦ rw none' tt
  | inr (p, e) ↦ rw e (elim (Option-cases (comment_of p cs)) [
    | inl missing ↦ cc (rw (e, missing, check_parent) at h)
    | inr (q, f) ↦
        let b : not (is_same q.statement c.statement) ≡ false =
          throw_if-ok _ _ (rw (e, f, check_parent) at h) in
        (q, f, ground (arith, is_same_iff q.statement c.statement, b))
  ])
]

-- What is true of every comment that is stored.
abbrev pub Stored : List Comment → Type 0
Stored cs = All Sized cs × Threaded [] cs

update-Sized :
    (id now : ℕ) (kept : String) (cs : List Comment)
    → (is_empty kept ≡ false) × (utf16_length kept ≤ 4000)
    → All Sized cs
    → All Sized (update_comment id (revise kept now) cs)
unfolding update_comment
update-Sized id now kept [] k h = tt
update-Sized id now kept (c ∷ cs) k (r, h) = elim (Bool-cases (c.id == id)) [
  | inl e ↦ rw e (k, h)
  | inr e ↦ rw e (r, update-Sized id now kept cs k h)
]

Step-Stored : {db t : Db} → Step db t → Stored db.comments → Stored t.comments
Step-Stored (creates db t actor statement text parent id now h) (a, b) =
    let (kept, k, p, e) = create-eq actor statement text parent id now db t h in
    let new : Comment = record {
      id = id;
      statement = statement;
      author = actor;
      text = kept;
      parent = parent;
      created_at = now;
      history = [];
    } in
    rw e (
      All-append Sized db.comments (new ∷ []) a (comment_text-Sized bad_comment text kept k, tt),
      Threaded-append [] db.comments new b (check_parent-RepliesTo db.comments new p),
    )
Step-Stored (edits db t actor id text now h) (a, b) =
    let (_, _, _, more) = edit-Edited actor id text now db t h in
    let (kept, k, e) = more in
    rw e (
      update-Sized id now kept db.comments (comment_text-Sized bad_text text kept k) a,
      Threaded-update id (revise kept now) [] db.comments (λ x. (refl, refl, refl)) b,
    )
Step-Stored (votes_for db t actor id value h) v =
    let (_, _, more) = vote-Voted actor id value db t h in let (_, _, _, new) = more in rw (new.2) v
Step-Stored (describes db t actor display_name bio now h) v =
    rw (update_profile-eq actor display_name bio now db t h).1 v

-- Every comment that is stored has a text that is neither blank nor longer than 4000 units, and replies, if to anything, to an
-- earlier comment on the same statement; so the replies form trees, and edits and votes keep them.
pub Reach-Stored : {db t : Db} → Reach db t → Stored db.comments → Stored t.comments
Reach-Stored here v = v
Reach-Stored (next r st) v = Step-Stored st (Reach-Stored r v)

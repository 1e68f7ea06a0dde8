-- ===== src/Community/History.antt =====
-- community.mjs: the steps of the database, and what they keep of the votes.
use oncm.Prelude.{
  ℕ, ◌≡◌, refl, sym, ◌∙◌, ap, inl, inr, true, false, not, Option, none, some, List, [], ◌∷◌, ◌++◌,
  ◌==◌, String, ok, throw_if, throw_if-ok, >>=-eq-ok, ok-injective, arith, Option-cases, Bool-cases,
}
use oncm.Prelude.Int.{ℤ}
use oncm.Community.Texts.{is_statement}
use oncm.Community.{
  bad_comment, bad_text, not_the_author, profile_field, Comment, Db, address, comment_of,
  update_comment, revise, comment_text, check_parent, create, edit, vote, update_profile,
}
use oncm.Community.Votes.{Fair, vote-Fair}

comment_of-append :
    (id : ℕ) (cs : List Comment) (c d : Comment)
    → comment_of id cs ≡ some c
    → comment_of id (cs ++ d ∷ []) ≡ some c
comment_of-append id [] c d h = cc
comment_of-append id (x ∷ cs) c d h = ground (arith, comment_of-append id cs c d)

pub create-eq :
    (actor : Option ℕ) (statement : String) (text : Option String) (parent : Option ℕ) (id now : ℕ)
    (db t : Db)
    → create actor statement text parent id now db ≡ ok t
    → (kept : String) × (comment_text bad_comment text ≡ ok kept)
      × (check_parent statement parent db.comments ≡ ok tt)
      × (t ≡ record db {
        comments =
            db.comments
            ++ record {
              id = id;
              statement = statement;
              author = actor;
              text = kept;
              parent = parent;
              created_at = now;
              history = [];
            }
              ∷ [];
      })
unfolding create
create-eq actor statement text parent id now db t h =
    let (_, _, h1) = >>=-eq-ok (address actor) _ h in
    let (_, _, h2) = >>=-eq-ok (throw_if (not (is_statement statement)) bad_comment) _ h1 in
    let (kept, hk, h3) = >>=-eq-ok (comment_text bad_comment text) _ h2 in
    let (_, hp, h4) = >>=-eq-ok (check_parent statement parent db.comments) _ h3 in
    (kept, hk, hp, sym (ok-injective h4))

pub create-Fair :
    (actor : Option ℕ) (statement : String) (text : Option String) (parent : Option ℕ) (id now : ℕ)
    (db t : Db)
    → create actor statement text parent id now db ≡ ok t
    → Fair db
    → Fair t
create-Fair actor statement text parent id now db t h v =
    let (kept, _, _, e) = create-eq actor statement text parent id now db t h in
    rw e (λ j b g. let (c, f, fair) = v j b g in (c, comment_of-append j db.comments c _ f, fair))

-- A change that keeps the identifier and the author of the comment that it is made to.
abbrev pub KeepsAuthor : (Comment → Comment) → Type 0
KeepsAuthor f = (c : Comment) → ((f c).id ≡ c.id) × ((f c).author ≡ c.author)

comment_of-update :
    (id j : ℕ) (f : Comment → Comment) (cs : List Comment) (c : Comment)
    → KeepsAuthor f
    → comment_of j cs ≡ some c
    → (d : Comment) × (comment_of j (update_comment id f cs) ≡ some d) × (d.author ≡ c.author)
unfolding update_comment
comment_of-update id j f [] c k h = cc
comment_of-update id j f (x ∷ cs) c k h = elim (Bool-cases (x.id == id)) [
  | inl here ↦ elim (Bool-cases (x.id == j)) [
    | inl found ↦
        let same : x ≡ c = cc (rw found at h) in
        let found' : ((f x).id == j) ≡ true = rw (k x).0 found in
        rw (here, found') (f x, refl, (k x).1 ∙ ap (λ (z : Comment). z.author) same)
    | inr other ↦
        let other' : ((f x).id == j) ≡ false = rw (k x).0 other in
        rw (here, other') (c, rw other at h, refl)
  ]
  | inr there ↦ elim (Bool-cases (x.id == j)) [
    | inl found ↦
        let same : x ≡ c = cc (rw found at h) in
        rw (there, found) (x, refl, ap (λ (z : Comment). z.author) same)
    | inr other ↦ rw (there, other) (comment_of-update id j f cs c k (rw other at h))
  ]
]

abbrev pub Edited : Option ℕ → ℕ → Option String → ℕ → Db → Db → Type 0
Edited actor id text now db t =
    (c : Comment) × (comment_of id db.comments ≡ some c)
    × (actor ≡ c.author)
    × ((kept : String) × (comment_text bad_text text ≡ ok kept)
        × (t ≡ record db { comments = update_comment id (revise kept now) db.comments }))

address-ok : (o : Option ℕ) {a : ℕ} → address o ≡ ok a → o ≡ some a
unfolding address
address-ok none h = cc
address-ok (some a) h = cc

-- An edit that succeeds is made by the comment's author, and changes nothing but the text, which is
-- trimmed, and the history, which gains the text that it replaces.
pub edit-Edited :
    (actor : Option ℕ) (id : ℕ) (text : Option String) (now : ℕ) (db t : Db)
    → edit actor id text now db ≡ ok t
    → Edited actor id text now db t
unfolding edit
edit-Edited actor id text now db t h = elim (Option-cases (comment_of id db.comments)) [
  | inl none' ↦ cc (rw (none', edit) at h)
  | inr (c, f) ↦
      let (author, ha, h1) = >>=-eq-ok (address c.author) _ (rw (f, edit) at h) in
      let (key, hk, h2) = >>=-eq-ok (address actor) _ h1 in
      let (_, hs, h3) = >>=-eq-ok (throw_if (not (author == key)) not_the_author) _ h2 in
      let (kept, ht, h4) = >>=-eq-ok (comment_text bad_text text) _ h3 in
      let b : not (author == key) ≡ false = throw_if-ok _ _ hs in
      let same : author ≡ key = ground arith in
      (
        c,
        f,
        cc (address-ok actor hk, address-ok c.author ha, same),
        (kept, ht, sym (ok-injective h4)),
      )
]

pub edit-Fair :
    (actor : Option ℕ) (id : ℕ) (text : Option String) (now : ℕ) (db t : Db)
    → edit actor id text now db ≡ ok t
    → Fair db
    → Fair t
edit-Fair actor id text now db t h v =
    let (_, _, _, more) = edit-Edited actor id text now db t h in
    let (kept, _, e) = more in
    rw e (λ j b g.
      let (c, f, (m, n)) = v j b g in
      let (d, f', a) =
        comment_of-update id j (revise kept now) db.comments c (λ x. (refl, refl)) f in
      (d, f', (m, λ k p. n k (sym a ∙ p))))

pub data Step : Db → Db → Type 0 where
  creates :
      (db t : Db) (actor : Option ℕ) (statement : String) (text : Option String) (parent : Option ℕ)
      (id now : ℕ)
      → create actor statement text parent id now db ≡ ok t
      → Step db t
  edits :
      (db t : Db) (actor : Option ℕ) (id : ℕ) (text : Option String) (now : ℕ)
      → edit actor id text now db ≡ ok t
      → Step db t
  votes_for :
      (db t : Db) (actor : Option ℕ) (id : ℕ) (value : ℤ)
      → vote actor id value db ≡ ok t
      → Step db t
  describes :
      (db t : Db) (actor : Option ℕ) (display_name bio : Option String) (now : ℕ)
      → update_profile actor display_name bio now db ≡ ok t
      → Step db t

pub data Reach (db : Db) : Db → Type 0 where
  here : Reach db db
  next : {t u : Db} → Reach db t → Step t u → Reach db u

pub update_profile-eq :
    (actor : Option ℕ) (display_name bio : Option String) (now : ℕ) (db t : Db)
    → update_profile actor display_name bio now db ≡ ok t
    → (t.votes ≡ db.votes) × (t.comments ≡ db.comments)
unfolding update_profile
update_profile-eq actor display_name bio now db t h =
    let (key, _, h1) = >>=-eq-ok (address actor) _ h in
    let (name, _, h2) = >>=-eq-ok (profile_field 40 display_name) _ h1 in
    let (about, _, h3) = >>=-eq-ok (profile_field 1000 bio) _ h2 in
    let e = ok-injective h3 in
    (ap (λ (d : Db). d.votes) (sym e), ap (λ (d : Db). d.comments) (sym e))

Step-Fair : {db t : Db} → Step db t → Fair db → Fair t
Step-Fair (creates db t actor statement text parent id now h) v =
    create-Fair actor statement text parent id now db t h v
Step-Fair (edits db t actor id text now h) v = edit-Fair actor id text now db t h v
Step-Fair (votes_for db t actor id value h) v = vote-Fair actor id value db t h v
Step-Fair (describes db t actor display_name bio now h) v =
    let (a, b) = update_profile-eq actor display_name bio now db t h in
    λ j x g. rw b (v j x (rw a at g))

-- Whatever is posted, edited and voted for, a wallet has at most one vote on a comment, and the comment's author has none.
pub Reach-Fair : {db t : Db} → Reach db t → Fair db → Fair t
Reach-Fair here v = v
Reach-Fair (next r st) v = Step-Fair st (Reach-Fair r v)

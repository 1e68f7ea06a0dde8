-- ===== src/Community/Votes.antt =====
-- community.mjs: who may vote, and what is kept of it.
use oncm.Prelude.{
  ℕ, ◌≡◌, refl, sym, ◌∙◌, ◌≢◌, ◌⊎◌, inl, inr, false, Option, none, some, List, [], ◌==◌, ok,
  throw_if, throw_if-ok, >>=-eq-ok, ok-injective, ℕ_discrete, if_pos, if_neg, arith, Option-cases,
}
use oncm.Prelude.Int.{ℤ}
use oncm.Prelude.Keyed.{get, put, IsMap, get-put, get-delete, put-IsMap, delete-IsMap}
use oncm.Community.{Vote, Comment, Db, address, comment_of, ballot, votes_on, cast, vote}

-- The votes on a comment: one for a wallet, and none of its author.
abbrev pub FairFor : Comment → List (ℕ × Vote) → Type 0
FairFor c b = IsMap ℕ_discrete b × ((k : ℕ) → c.author ≡ some k → get ℕ_discrete k b ≡ none)

-- Every ballot is of a comment, and fair.
abbrev pub Fair : Db → Type 0
Fair db =
    (id : ℕ) (b : List (ℕ × Vote))
    → get ℕ_discrete id db.votes ≡ some b
    → (c : Comment) × (comment_of id db.comments ≡ some c) × FairFor c b

-- what `vote` does when it succeeds
abbrev pub Voted : ℕ → ℕ → ℤ → Db → Db → Type 0
Voted key id value db t =
    (c : Comment) × (comment_of id db.comments ≡ some c)
    × (c.author ≢ some key)
    × ((choice : Option Vote) × (ballot value ≡ ok choice)
        × (t ≡ record db {
          votes = put ℕ_discrete id (cast key choice (votes_on id db.votes)) db.votes;
        }))

other_author :
    (c : Comment) (author : ℕ) {key : ℕ}
    → address c.author ≡ ok author
    → (author == key) ≡ false
    → c.author ≢ some key
unfolding address
other_author c author {key = key} h n = elim (Option-cases c.author) [
  | inl none' ↦ λ p. cc (none', p)
  | inr (a, e) ↦ λ p. ground (arith, rw e at h, n)
]

pub vote-Voted :
    (actor : Option ℕ) (id : ℕ) (value : ℤ) (db t : Db)
    → vote actor id value db ≡ ok t
    → (key : ℕ) × (actor ≡ some key) × Voted key id value db t
unfolding vote address
vote-Voted none id value db t h = cc
vote-Voted (some key) id value db t h = elim (Option-cases (comment_of id db.comments)) [
  | inl none' ↦ cc (rw none' at h)
  | inr (c, f) ↦
      let (author, ha, h1) = >>=-eq-ok (address c.author) _ (rw f at h) in
      let (_, hs, h2) = >>=-eq-ok (throw_if (author == key) _) _ h1 in
      let (choice, hb, h3) = >>=-eq-ok (ballot value) _ h2 in
      let other : (author == key) ≡ false = throw_if-ok _ _ hs in
      (key, refl, (c, f, other_author c author ha other, (choice, hb, sym (ok-injective h3))))
]

cast-Fair :
    (c : Comment) (key : ℕ) (choice : Option Vote) (b : List (ℕ × Vote))
    → c.author ≢ some key
    → FairFor c b
    → FairFor c (cast key choice b)
cast-Fair c key none b n (m, h) = (
  delete-IsMap ℕ_discrete key b m,
  λ k e. get-delete ℕ_discrete key k b m ∙ if_neg (ℕ_discrete key k) (λ p. n (rw p e)) _ _ ∙ h k e,
)
cast-Fair c key (some v) b n (m, h) = (
  put-IsMap ℕ_discrete key v b m,
  λ k e. get-put ℕ_discrete key k v b ∙ if_neg (ℕ_discrete key k) (λ p. n (rw p e)) _ _ ∙ h k e,
)

nothing : (k : ℕ) → get {V = Vote} ℕ_discrete k [] ≡ none
unfolding get
nothing k = refl

votes_on-Fair :
    (db : Db) (id : ℕ) (c : Comment)
    → Fair db
    → comment_of id db.comments ≡ some c
    → FairFor c (votes_on id db.votes)
votes_on-Fair db id c v f = elim (Option-cases (get ℕ_discrete id db.votes)) [
  | inl none' ↦ rw (none', votes_on) (tt, λ k e. nothing k)
  | inr (b, e) ↦
      let (c', f', fair) = v id b e in
      let same : c' ≡ c = cc (f, f') in rw (e, votes_on) (rw same at fair)
]

put_cases :
    {V : Type 0} (k j : ℕ) (v w : V) (m : List (ℕ × V))
    → get ℕ_discrete j (put ℕ_discrete k v m) ≡ some w
    → ((k ≡ j) × (v ≡ w)) ⊎ (get ℕ_discrete j m ≡ some w)
put_cases k j v w m h = elim (ℕ_discrete k j) [
  | yes p ↦
      let e : some v ≡ some w =
        sym (get-put ℕ_discrete k j v m ∙ if_pos (ℕ_discrete k j) p _ _) ∙ h in
      inl (p, cc (e))
  | no n ↦ inr (sym (get-put ℕ_discrete k j v m ∙ if_neg (ℕ_discrete k j) n _ _) ∙ h)
]

pub vote-Fair :
    (actor : Option ℕ) (id : ℕ) (value : ℤ) (db t : Db)
    → vote actor id value db ≡ ok t
    → Fair db
    → Fair t
vote-Fair actor id value db t h v = voted (vote-Voted actor id value db t h)
  where
    voted : ((key : ℕ) × (actor ≡ some key) × Voted key id value db t) → Fair t
    voted (key, _, (c, f, n, (choice, _, e))) =
        rw e
          (λ j b g. kept j b (put_cases id j (cast key choice (votes_on id db.votes)) b db.votes g))
      where
        kept :
            (j : ℕ) (b : List (ℕ × Vote))
            → ((id ≡ j) × (cast key choice (votes_on id db.votes) ≡ b))
              ⊎ (get ℕ_discrete j db.votes ≡ some b)
            → (d : Comment) × (comment_of j db.comments ≡ some d) × FairFor d b
        kept j b (inl (p, q)) = (
          c,
          rw p at f,
          rw q at (cast-Fair c key choice (votes_on id db.votes) n (votes_on-Fair db id c v f)),
        )
        kept j b (inr g) = v j b g

-- ===== src/Community.antt =====
-- implementations/vault/server/community.mjs: profiles, comments and votes. A wallet is its number, and
-- `none` where a text is no address; a parent is `none` where it is absent or empty; a comment's identifier is the number of its UUID.
pub mod Texts
pub mod Votes
pub mod History
pub mod Threads
pub mod Listing
mod Examples
use oncm.Prelude.{
  utf16_length, ℕ, zero, suc, Bool, false, ◌||◌, not, Option, none, some, List, [], ◌∷◌, ◌++◌,
  length, keep, ltb, ◌==◌, if◌then◌else◌, String, is_same, Result, ok, throw, ◌>>=◌, ◌>>◌, throw_if,
  ℕ_discrete,
}
use oncm.Prelude.Int.{ℤ, pos, negsuc}
use oncm.Prelude.Keyed.{get, put, delete}
use oncm.Community.Texts.{trim, is_empty, is_statement}

pub data Error : Type 0 where
  invalid_wallet bad_profile bad_comment bad_parent not_the_author bad_text unknown_comment
        self_vote bad_vote :
      Error

pub data Vote : Type 0 where
  up down : Vote

pub record Comment : Type 0 where
  pub id : ℕ
  pub statement : String
  pub author : Option ℕ
  pub text : String
  pub parent : Option ℕ
  pub created_at : ℕ
  pub history : List (String × ℕ)

pub record Profile : Type 0 where
  pub display_name : String
  pub bio : String
  pub updated_at : ℕ

pub record Db : Type 0 where
  pub profiles : List (ℕ × Profile)
  pub votes : List (ℕ × List (ℕ × Vote))
  pub comments : List Comment

unfoldable pub address : Option ℕ → Result Error ℕ
address none = throw invalid_wallet
address (some a) = ok a

-- `db.comments.find((c) => c.id === id)`
abbrev pub comment_of : ℕ → List Comment → Option Comment
comment_of id [] = none
comment_of id (c ∷ cs) = if c.id == id then some c else comment_of id cs

-- an assignment to fields of the comment that `find` gives
unfoldable pub update_comment : ℕ → (Comment → Comment) → List Comment → List Comment
update_comment id f [] = []
update_comment id f (c ∷ cs) =
    let rest = update_comment id f cs in if c.id == id then f c ∷ cs else c ∷ rest

unfoldable pub is_by : ℕ → Comment → Bool
is_by key c = elim c.author [ none ↦ false | some a ↦ a == key ]

-- the profile and the number of comments
unfoldable pub profile : Option ℕ → Db → Result Error (Profile × ℕ)
unfolding address is_by
profile actor db = do
  key ← address actor
  ok (
    elim (get ℕ_discrete key db.profiles) [
      | none ↦ record { display_name = ""; bio = ""; updated_at = 0 }
      | some p ↦ p
    ],
    length (keep (is_by key) db.comments),
  )

unfoldable pub profile_field : ℕ → Option String → Result Error String
profile_field most none = throw bad_profile
profile_field most (some s) = if ltb most (utf16_length s) then throw bad_profile else ok s

unfoldable pub update_profile : Option ℕ → Option String → Option String → ℕ → Db → Result Error Db
unfolding address profile_field
update_profile actor display_name bio now db = do
  key ← address actor
  name ← profile_field 40 display_name
  about ← profile_field 1000 bio
  ok (record db {
    profiles =
        put ℕ_discrete key (record { display_name = trim name; bio = trim about; updated_at = now })
          db.profiles;
  })

-- `typeof text !== 'string' || !text.trim() || text.length > 4000`
unfoldable pub comment_text : Error → Option String → Result Error String
comment_text e none = throw e
comment_text e (some s) =
    if is_empty (trim s) || ltb 4000 (utf16_length s) then throw e else ok (trim s)

unfoldable pub check_parent : String → Option ℕ → List Comment → Result Error (Unit {0})
check_parent statement none comments = ok tt
check_parent statement (some p) comments = elim (comment_of p comments) [
  | none ↦ throw bad_parent
  | some c ↦ throw_if (not (is_same c.statement statement)) bad_parent
]

unfoldable pub create : Option ℕ → String → Option String → Option ℕ → ℕ → ℕ → Db → Result Error Db
unfolding address comment_text check_parent
create actor statement text parent id now db = do
  _ ← address actor
  throw_if (not (is_statement statement)) bad_comment
  kept ← comment_text bad_comment text
  check_parent statement parent db.comments
  ok (record db {
    comments =
        db.comments
        ++ record {
          id = id;
          statement = statement;
          author = actor;
          text = kept;
          parent = parent;
          created_at = now;
          history = [];
        }
          ∷ [];
  })

abbrev pub revise : String → ℕ → Comment → Comment
revise kept now c = record c { text = kept; history = c.history ++ (c.text, now) ∷ [] }

unfoldable pub edit : Option ℕ → ℕ → Option String → ℕ → Db → Result Error Db
unfolding address comment_text update_comment
edit actor id text now db = elim (comment_of id db.comments) [
  | none ↦ throw not_the_author
  | some c ↦ do
    author ← address c.author
    key ← address actor
    throw_if (not (author == key)) not_the_author
    kept ← comment_text bad_text text
    ok (record db { comments = update_comment id (revise kept now) db.comments })
]

-- `[-1, 0, 1].includes(value)`; a value of zero is no vote.
unfoldable pub ballot : ℤ → Result Error (Option Vote)
ballot (pos zero) = ok none
ballot (pos (suc zero)) = ok (some up)
ballot (pos (suc (suc n))) = throw bad_vote
ballot (negsuc zero) = ok (some down)
ballot (negsuc (suc n)) = throw bad_vote

-- `db.votes[id] ??= {}`
abbrev pub votes_on : ℕ → List (ℕ × List (ℕ × Vote)) → List (ℕ × Vote)
votes_on id votes = elim (get ℕ_discrete id votes) [ none ↦ [] | some b ↦ b ]

abbrev pub cast : ℕ → Option Vote → List (ℕ × Vote) → List (ℕ × Vote)
cast key none b = delete ℕ_discrete key b
cast key (some v) b = put ℕ_discrete key v b

unfoldable pub vote : Option ℕ → ℕ → ℤ → Db → Result Error Db
unfolding address ballot
vote actor id value db = do
  key ← address actor
  elim (comment_of id db.comments) [
    | none ↦ throw unknown_comment
    | some c ↦ do
      author ← address c.author
      throw_if (author == key) self_vote
      choice ← ballot value
      ok (record db { votes = put ℕ_discrete id (cast key choice (votes_on id db.votes)) db.votes })
  ]

-- ===== src/Community/Listing.antt =====
-- community.mjs, `list`: the comments on a statement in threads. A time is a number, and a Map is a function; an identifier that is not listed
-- has no parent. A trail has the latest identifier first, and the end of a stack of the source is the head of a list.

pub mod Counts
pub mod Cycles
pub mod Walks
pub mod Breaking
pub mod Broken
pub mod Stack
pub mod Complete
pub mod Fallbacks
pub mod Answers
mod Examples
use oncm.Prelude.{
  ℕ, zero, suc, ◌+◌, Bool, true, false, ◌&&◌, ◌||◌, not, Option, none, some, List, [], ◌∷◌, ◌++◌,
  map, length, keep, ltb, leb, ◌==◌, if◌then◌else◌, String, is_same, Result, ok, ◌>>=◌, ℕ_discrete,
}
use oncm.Prelude.Keyed.{get}
use oncm.Prelude.Sort.{sort}
use oncm.Community.{Error, Vote, up, down, Comment, Profile, Db, profile}

-- a comment with what `decorate` adds
pub record Decorated : Type 0 where
  pub comment : Comment
  pub score : ℕ × ℕ
  pub votes : List (ℕ × Vote)
  pub profile : Profile × ℕ

abbrev pub id_of : Decorated → ℕ
id_of c = c.comment.id

-- The votes up and the votes down, whose difference is the score.
abbrev pub tally : List (ℕ × Vote) → ℕ × ℕ
tally [] = (0, 0)
tally ((who, up) ∷ vs) = let (u, d) = tally vs in (u + 1, d)
tally ((who, down) ∷ vs) = let (u, d) = tally vs in (u, d + 1)

unfoldable pub votes_on : ℕ → Db → List (ℕ × Vote)
votes_on id db = elim (get ℕ_discrete id db.votes) [ none ↦ [] | some vs ↦ vs ]

unfoldable pub decorate : Db → Comment → Result Error Decorated
unfolding votes_on profile
decorate db c = do
  p ← profile c.author db
  ok (record {
    comment = c;
    score = tally (votes_on c.id db);
    votes = votes_on c.id db;
    profile = p;
  })

unfoldable pub decorate_all : Db → List Comment → Result Error (List Decorated)
unfolding decorate
decorate_all db [] = ok []
decorate_all db (c ∷ cs) = do d ← decorate db c; rest ← decorate_all db cs; ok (d ∷ rest)

-- `b.createdAt.localeCompare(a.createdAt) || a.id.localeCompare(b.id)` is at most 0
abbrev pub is_newer : Decorated → Decorated → Bool
is_newer a b =
    ltb b.comment.created_at a.comment.created_at
    || (a.comment.created_at == b.comment.created_at && leb (id_of a) (id_of b))

-- the order of `list`, where `top` tells whether it is by the scores
unfoldable pub is_before : Bool → Decorated → Decorated → Bool
is_before false a b = is_newer a b
is_before true a b =
    ltb (b.score.0 + a.score.1) (a.score.0 + b.score.1)
    || (b.score.0 + a.score.1 == a.score.0 + b.score.1 && is_newer a b)

-- the order of replies
unfoldable pub is_earlier : Decorated → Decorated → Bool
is_earlier a b =
    ltb a.comment.created_at b.comment.created_at
    || (a.comment.created_at == b.comment.created_at && leb (id_of a) (id_of b))

-- A statement is `none` where it is absent or empty.
abbrev pub is_on : Option String → Comment → Bool
is_on none c = true
is_on (some s) c = is_same c.statement s

pub data Fallback : Type 0 where
  missing_parent cycle : Fallback

abbrev pub Parents : Type 0
Parents = ℕ → Option ℕ

abbrev pub has : ℕ → List ℕ → Bool
has x [] = false
has x (y ∷ ys) = y == x || has x ys

-- `map.set(key, value)`
abbrev pub set_at {ℓ} : {V : Type ℓ} → ℕ → V → (ℕ → V) → ℕ → V
set_at key value f x = if x == key then value else f x

-- The parent of a comment, where it has one that is listed.
unfoldable pub valid_parent : List ℕ → Option ℕ → Option ℕ
valid_parent ids none = none
valid_parent ids (some p) = if has p ids then some p else none

abbrev pub is_missing : List ℕ → Option ℕ → Bool
is_missing ids none = false
is_missing ids (some p) = not (has p ids)

-- What the loops on the comments change.
pub record View : Type 0 where
  pub parents : Parents
  pub fallback : ℕ → Option Fallback
  pub finished : List ℕ

unfoldable pub view_from : List ℕ → List Decorated → View → View
unfolding valid_parent
view_from ids [] v = v
view_from ids (c ∷ cs) v = view_from ids cs (record v {
  parents = set_at (id_of c) (valid_parent ids c.comment.parent) v.parents;
  fallback =
      if is_missing ids c.comment.parent
      then set_at (id_of c) (some missing_parent) v.fallback
      else v.fallback;
})

abbrev pub no_view : View
no_view = record { parents = λ x. none; fallback = λ x. none; finished = [] }

abbrev pub is_met : List ℕ → List ℕ → Option ℕ → Bool
is_met finished trail none = true
is_met finished trail (some x) = has x finished || has x trail

abbrev pub pushed : Option ℕ → List ℕ → List ℕ
pushed none trail = trail
pushed (some x) trail = x ∷ trail

abbrev pub next_of : Parents → Option ℕ → Option ℕ
next_of parents none = none
next_of parents (some x) = parents x

-- The `while` that follows the parents: the trail, and where it ended; `none` where the fuel has run out.
unfoldable pub walk : ℕ → Parents → List ℕ → List ℕ → Option ℕ → Option (List ℕ × Option ℕ)
walk zero parents finished trail id = none
walk (suc fuel) parents finished trail id =
    let rest = walk fuel parents finished (pushed id trail) (next_of parents id) in
    if is_met finished trail id then some (trail, id) else rest

-- `trail.slice(positions.get(id))`
abbrev pub up_to : ℕ → List ℕ → List ℕ
up_to id [] = []
up_to id (x ∷ xs) = if x == id then x ∷ [] else x ∷ up_to id xs

abbrev pub head_or : ℕ → List ℕ → ℕ
head_or d [] = d
head_or d (x ∷ xs) = x

-- `.sort()[0]` of the cycle
unfoldable pub first_of_cycle : ℕ → List ℕ → ℕ
unfolding sort
first_of_cycle id trail = head_or id (sort leb (up_to id trail))

-- A trail that has ended in itself is a cycle, whose edge at its first identifier is taken out.
unfoldable pub end_walk : List ℕ → Option ℕ → View → View
unfolding first_of_cycle
end_walk trail none v = record v { finished = trail ++ v.finished }
end_walk trail (some id) v =
    let root = first_of_cycle id trail in
    if has id trail
    then record {
      parents = set_at root none v.parents;
      fallback = set_at root (some cycle) v.fallback;
      finished = trail ++ v.finished;
    }
    else record v { finished = trail ++ v.finished }

unfoldable pub break_cycles : ℕ → List Decorated → View → Option View
unfolding walk end_walk
break_cycles fuel [] v = some v
break_cycles fuel (c ∷ cs) v = elim (walk fuel v.parents v.finished [] (some (id_of c))) [
  | none ↦ none
  | some (trail, id) ↦ break_cycles fuel cs (end_walk trail id v)
]

abbrev pub is_child_of : Option ℕ → Option ℕ → Bool
is_child_of none none = true
is_child_of (some p) (some q) = q == p
is_child_of none (some q) = false
is_child_of (some p) none = false

abbrev pub children_of : Parents → List Decorated → Option ℕ → List Decorated
children_of parents cs parent = keep (λ c. is_child_of parent (parents (id_of c))) cs

-- The replies, the earliest first.
unfoldable pub replies_of : Parents → List Decorated → ℕ → List Decorated
unfolding is_earlier sort
replies_of parents cs id = sort is_earlier (children_of parents cs (some id))

-- An entry of the stack, and of the result with its parent and its fallback.
pub record Entry : Type 0 where
  pub comment : Decorated
  pub depth : ℕ
  pub root : ℕ

-- The `while` over the stack: the result, and what is left of the stack where the fuel has run out.
unfoldable pub unfold_stack : ℕ → Parents → List Decorated → List Entry → List Entry × List Entry
unfolding replies_of
unfold_stack zero parents cs stack = ([], stack)
unfold_stack (suc fuel) parents cs [] = ([], [])
unfold_stack (suc fuel) parents cs (e ∷ stack) =
    let replies =
      map (λ r. record { comment = r; depth = e.depth + 1; root = e.root })
        (replies_of parents cs (id_of e.comment)) in
    let (result, left) = unfold_stack fuel parents cs (replies ++ stack) in (e ∷ result, left)

pub record Row : Type 0 where
  pub entry : Entry
  pub parent : Option ℕ
  pub fallback : Option Fallback

abbrev pub row_of : View → Entry → Row
row_of v e = record {
  entry = e;
  parent = v.parents (id_of e.comment);
  fallback = v.fallback (id_of e.comment);
}

abbrev pub when_done : View → List Entry × List Entry → Option (List Row)
when_done v (result, []) = some (map (row_of v) result)
when_done v (result, e ∷ left) = none

-- The threads of the comments in their order; the fuel is one more than their number.
unfoldable pub threads : List Decorated → Option (List Row)
unfolding view_from break_cycles unfold_stack
threads cs =
    let ids = map id_of cs in
    elim (break_cycles (length cs + 1) cs (view_from ids cs no_view)) [
      | none ↦ none
      | some v ↦ when_done v (
          unfold_stack (length cs + 1) v.parents cs (
            map (λ c. record { comment = c; depth = 0; root = id_of c })
              (children_of v.parents cs none)))
    ]

-- All comments in one list, or the threads of a statement, where the fuel was enough.
pub data Answer : Type 0 where
  flat : List Decorated → Answer
  threaded : Option (List Row) → Answer

abbrev pub answer_for : Option String → List Decorated → Answer
answer_for none cs = flat cs
answer_for (some s) cs = threaded (threads cs)

unfoldable pub list : Option String → Bool → Db → Result Error Answer
unfolding decorate_all is_before sort threads
list statement top db = do
  cs ← decorate_all db (keep (is_on statement) db.comments)
  ok (answer_for statement (sort (is_before top) cs))

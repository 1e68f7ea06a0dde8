-- ===== src/Community/Listing/Examples.antt =====
-- Comments whose parents are a cycle, with one reply to it and one to a comment that is not there.
use oncm.Prelude.{
  ℕ, ◌≡◌, refl, Option, none, some, List, [], ◌∷◌, map, keep, Result, ok, throw, false, arith,
}
use oncm.Community.{Error, Comment, Db}
use oncm.Community.Listing.{Row, Answer, flat, threaded, is_on, id_of, list}
use oncm.Community.Listing.Counts.{times}
use oncm.Community.Listing.Breaking.{IsDistinct}
use oncm.Community.Listing.Answers.{row_ids, SameIds, AllKept, comment_ids, list-SameIds}

abbrev comment : ℕ → Option ℕ → Comment
comment id parent = record {
  id = id;
  statement = "s";
  author = some 9;
  text = "t";
  parent = parent;
  created_at = id;
  history = [];
}

-- 3 → 2 → 1 → 3 is a cycle, 4 replies to 2, and 5 to nothing.
abbrev stored : Db
stored = record {
  profiles = [];
  votes = [];
  comments =
      comment 1 (some 3)
      ∷ comment 2 (some 1)
      ∷ comment 3 (some 2)
      ∷ comment 4 (some 2)
      ∷ comment 5 (some 8)
      ∷ [];
}

stored-IsDistinct : IsDistinct (comment_ids stored.comments)
unfolding times
stored-IsDistinct = record { once = λ x. ground arith }

abbrev outline : Option (List Row) → List (ℕ × ℕ × Option ℕ)
outline none = []
outline (some rows) = map (λ r. (id_of r.entry.comment, r.entry.depth, r.parent)) rows

abbrev answered : Result Error Answer → Option (List Row)
answered (throw e) = none
answered (ok (flat cs)) = none
answered (ok (threaded rows)) = rows

-- The cycle is opened at 1, and 5 comes first, since it is newer.
outlined :
    outline (answered (list (some "s") false stored))
    ≡ (5, 0, none) ∷ (1, 0, none) ∷ (2, 1, some 1) ∷ (3, 2, some 2) ∷ (4, 2, some 2) ∷ []
unfolding list
outlined = refl

abbrev the_answer : Answer
the_answer = threaded (answered (list (some "s") false stored))

listed : list (some "s") false stored ≡ ok the_answer
unfolding list
listed = refl

list-SameIds_example :
    (rows : List Row) × (the_answer ≡ threaded (some rows))
    × SameIds (row_ids rows) (comment_ids (keep (is_on (some "s")) stored.comments))
    × AllKept rows
list-SameIds_example = list-SameIds stored "s" false the_answer stored-IsDistinct listed

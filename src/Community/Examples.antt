-- ===== src/Community/Examples.antt =====
-- community.mjs: two wallets that talk about a statement.
use oncm.Prelude.{utf16_length, ◌≡◌, refl, none, some, [], ◌∷◌, String, ok, throw, ℕ_discrete}
use oncm.Prelude.Int.{pos, negsuc}
use oncm.Prelude.Keyed.{get, put, delete}
use oncm.Community.{
  Comment, Db, up, create, edit, vote, update_profile, revise, self_vote, bad_vote, bad_parent,
  not_the_author, bad_comment, check_parent, comment_text, update_comment,
}
use oncm.Community.Texts.{trim, is_statement}
use oncm.Community.Votes.{Fair}
use oncm.Community.History.{creates, edits, votes_for, Reach, here, next, Reach-Fair}
use oncm.Community.Threads.{Stored, Reach-Stored}

program : Unit {0}
unfolding create edit vote update_profile check_parent comment_text update_comment is_statement trim
    utf16_length ℕ_discrete get put delete
program = tt

abbrev statement : String
statement = "0xaaaaaaaaaaaaaaaaaaaaaaaaaaaaaaaaaaaaaaaaaaaaaaaaaaaaaaaaaaaaaaaa"

abbrev empty : Db
empty = record { profiles = []; votes = []; comments = [] }

abbrev question : Comment
question = record {
  id = 1;
  statement = statement;
  author = some 7;
  text = "why?";
  parent = none;
  created_at = 100;
  history = [];
}

abbrev answer : Comment
answer = record {
  id = 2;
  statement = statement;
  author = some 8;
  text = "see below";
  parent = some 1;
  created_at = 101;
  history = [];
}

abbrev asked : Db
asked = record empty { comments = question ∷ [] }

abbrev answered : Db
answered = record empty { comments = question ∷ answer ∷ [] }

abbrev voted : Db
voted = record answered { votes = put ℕ_discrete 1 (put ℕ_discrete 8 up []) [] }

creates_question : create (some 7) statement (some "  why? ") none 1 100 empty ≡ ok asked
unfolding program
creates_question = refl

creates_answer : create (some 8) statement (some "see below") (some 1) 2 101 asked ≡ ok answered
unfolding program
creates_answer = refl

blank_text : create (some 8) statement (some "  ") none 2 101 asked ≡ throw bad_comment
unfolding program
blank_text = refl

unknown_parent : create (some 8) statement (some "x") (some 5) 2 101 asked ≡ throw bad_parent
unfolding program
unknown_parent = refl

votes_up : vote (some 8) 1 (pos 1) answered ≡ ok voted
unfolding program
votes_up = refl

votes_for_oneself : vote (some 7) 1 (pos 1) answered ≡ throw self_vote
unfolding program
votes_for_oneself = refl

votes_twice_down : vote (some 8) 1 (negsuc 1) answered ≡ throw bad_vote
unfolding program
votes_twice_down = refl

abbrev edited : Db
edited = record voted { comments = question ∷ revise "see above" 102 answer ∷ [] }

edits_answer : edit (some 8) 2 (some "see above") 102 voted ≡ ok edited
unfolding program
edits_answer = refl

edits_of_another : edit (some 7) 2 (some "no") 102 voted ≡ throw not_the_author
unfolding program
edits_of_another = refl

history : Reach empty edited
history =
    next
      (next
        (next
          (next here
            (creates empty asked (some 7) statement (some "  why? ") none 1 100 creates_question))
          (creates asked answered (some 8) statement (some "see below") (some 1) 2 101
            creates_answer))
        (votes_for answered voted (some 8) 1 (pos 1) votes_up))
      (edits voted edited (some 8) 2 (some "see above") 102 edits_answer)

empty-Fair : Fair empty
unfolding get
empty-Fair id b h = absurd (nothing h)
  where
    nothing : {A : Type 0} {a : A} → none ≡ some a → ⊥
    nothing e = cc

Reach-Fair_example : Fair edited
Reach-Fair_example = Reach-Fair history empty-Fair

Reach-Stored_example : Stored edited.comments
Reach-Stored_example = Reach-Stored history (tt, tt)

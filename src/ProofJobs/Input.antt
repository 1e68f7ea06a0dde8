-- ===== src/ProofJobs/Input.antt =====
-- proof-jobs.mjs, `normalize`: the fields of a request that are kept. A field that is not given is
-- `none`; one that is given and no text is `some none`.
use Prim.Native.Char.{code}
use oncm.Prelude.{
  utf16_length, ℕ, ◌+◌, ◌||◌, Option, none, some, ltb, leb, ◌==◌, if◌then◌else◌, String, Result, ok,
  throw, ◌>>=◌,
}

pub data Action : Type 0 where
  check register prove : Action

pub data Error : Type 0 where
  action_required source_required invalid_field bad_outcome shutting_down queue_full owner_full
        unknown_job not_active :
      Error

-- `proofBudgets`, in seconds
unfoldable pub budget : Action → ℕ
budget check = 5
budget register = 30
budget prove = 120

-- The UTF-8 bytes of a text: `Buffer.byteLength`.
unfoldable pub byte_length : String → ℕ
byte_length String.[] = 0
byte_length (String.◌∷◌ c s) =
    (if ltb (code c) 128
      then 1
      else if ltb (code c) 2048
      then 2
      else if ltb (code c) 65536
      then 3
      else 4)
    + byte_length s

-- The last units of a text, `s.slice(-n)`; of a character of two units that the cut splits, neither is kept.
unfoldable pub last_units : ℕ → String → String
unfolding utf16_length
last_units n String.[] = String.[]
last_units n (String.◌∷◌ c s) =
    let rest = last_units n s in
    if leb (utf16_length (String.◌∷◌ c s)) n then String.◌∷◌ c s else rest

pub record Raw : Type 0 where
  pub action : Option Action
  pub source : Option String
  pub statement_id : Option (Option String)
  pub goal_hash : Option (Option String)
  pub profile_id : Option (Option String)
  pub outcome : Option ℕ
  pub fixture_id : Option (Option String)
  pub target_declaration : Option (Option String)

pub record Input : Type 0 where
  pub action : Action
  pub source : String
  pub statement_id : Option String
  pub goal_hash : Option String
  pub profile_id : Option String
  pub outcome : Option ℕ
  pub fixture_id : Option String
  pub target_declaration : Option String

-- `typeof input[key] !== 'string' || input[key].length > 1024`, where the field is given
unfoldable pub text_field : Option (Option String) → Result Error (Option String)
unfolding utf16_length
text_field none = ok none
text_field (some none) = throw invalid_field
text_field (some (some s)) = if ltb 1024 (utf16_length s) then throw invalid_field else ok (some s)

unfoldable pub outcome_field : Option ℕ → Result Error (Option ℕ)
outcome_field none = ok none
outcome_field (some n) = if n == 1 || n == 2 then ok (some n) else throw bad_outcome

unfoldable pub source_field : Option String → Result Error String
unfolding byte_length
source_field none = throw source_required
source_field (some s) = if ltb 200000 (byte_length s) then throw source_required else ok s

unfoldable pub action_field : Option Action → Result Error Action
action_field none = throw action_required
action_field (some a) = ok a

unfoldable pub normalize : Option Raw → Result Error Input
unfolding action_field source_field text_field outcome_field
normalize none = throw action_required
normalize (some r) = do
  action ← action_field r.action
  source ← source_field r.source
  statement ← text_field r.statement_id
  goal ← text_field r.goal_hash
  profile ← text_field r.profile_id
  fixture ← text_field r.fixture_id
  target ← text_field r.target_declaration
  outcome ← outcome_field r.outcome
  ok (record {
    action = action;
    source = source;
    statement_id = statement;
    goal_hash = goal;
    profile_id = profile;
    outcome = outcome;
    fixture_id = fixture;
    target_declaration = target;
  })

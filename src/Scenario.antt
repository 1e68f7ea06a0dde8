-- ===== src/Scenario.antt =====
-- implementations/vault/web/settlement-scenario.mjs: the scenario of a pool that is shown to a wallet, while wallet and pool may change.
-- A client and an address are numbers; `none` is an absent or an empty one, and the null context is the one with nothing in it.
pub mod Bound
mod Examples
use oncm.Prelude.{
  ℕ, ◌+◌, ◌≡◌, Bool, true, false, ◌&&◌, not, Option, none, some, ◌==◌, if◌then◌else◌, Result, ok,
  throw,
}

pub record Context : Type 0 where
  pub client : Option ℕ
  pub account : Option ℕ
  pub pool : Option ℕ
  pub chain_id : Option ℕ

abbrev pub is_same_option : Option ℕ → Option ℕ → Bool
is_same_option none none = true
is_same_option (some a) (some b) = a == b
is_same_option none (some b) = false
is_same_option (some a) none = false

unfoldable pub is_same_context : Context → Context → Bool
is_same_context a b =
    is_same_option a.client b.client
    && is_same_option a.account b.account
    && is_same_option a.pool b.pool
    && is_same_option a.chain_id b.chain_id

-- what `settlementStress` returns; `figures` is the rest of it
pub record Stress : Type 0 where
  pub account : Option ℕ
  pub pool : Option ℕ
  pub figures : ℕ

pub record Scenario : Type 0 where
  pub stress : Stress
  pub binding : Context

unfoldable pub scenario_matches : Option Scenario → Context → Bool
unfolding is_same_context
scenario_matches none c = false
scenario_matches (some r) c =
    is_same_context r.binding c
    && is_same_option r.stress.account c.account
    && is_same_option r.stress.pool c.pool

-- `shown` is what was published last.
pub record State : Type 0 where
  pub context : Context
  pub epoch : ℕ
  pub value : Option Scenario
  pub disposed : Bool
  pub shown : Option Scenario

abbrev pub nothing : Context
nothing = record { client = none; account = none; pool = none; chain_id = none }

abbrev pub initial : State
initial = record { context = nothing; epoch = 0; value = none; disposed = false; shown = none }

unfoldable pub clear : State → State
clear s = record s {
  epoch = s.epoch + 1;
  value = none;
  shown = if s.disposed then s.shown else none;
}

unfoldable pub set_context : Context → State → State
unfolding clear is_same_context
set_context next s =
    if is_same_context s.context next then s else clear (record s { context = next })

unfoldable pub dispose : State → State
dispose s = record s { disposed = true; epoch = s.epoch + 1; value = none }

pub data Error : Type 0 where
  not_selected different_chain other_scenario outside_failed : Error

-- A load under way: its ticket, and the context that it has captured.
pub record Load : Type 0 where
  pub ticket : ℕ
  pub captured : Context

unfoldable pub is_current : Load → State → Bool
unfolding is_same_context
is_current l s = not s.disposed && l.ticket == s.epoch && is_same_context s.context l.captured

abbrev pub is_present : Option ℕ → Bool
is_present none = false
is_present (some a) = true

-- `load` up to its first await
unfoldable pub begin_load : State → State × Result Error Load
unfolding clear
begin_load s =
    let t = clear s in
    let c = t.context in
    if is_present c.client && is_present c.account && is_present c.pool
    then (t, ok (record { ticket = t.epoch; captured = c }))
    else (t, throw not_selected)

-- the `catch`: an error of a load that is not current is dropped
unfoldable pub caught : Error → Load → State → Result Error (Option Scenario)
unfolding is_current
caught e l s = if is_current l s then throw e else ok none

pub data Progress : Type 0 where
  asks : Progress
  ends : Result Error (Option Scenario) → Progress

-- What follows on the answer of `getNetwork`, which is the number of a chain.
unfoldable pub on_network : Load → Result Error ℕ → State → Progress
unfolding caught is_current
on_network l (throw e) s = ends (caught e l s)
on_network l (ok chain) s =
    if not (is_current l s)
    then ends (ok none)
    else if is_same_option (some chain) l.captured.chain_id
    then asks
    else ends (caught different_chain l s)

-- What follows on the answer of `settlementStress`: the state and what `load` returns.
unfoldable pub on_result :
    Load → Result Error Stress → State → State × Result Error (Option Scenario)
unfolding caught is_current scenario_matches
on_result l (throw e) s = (s, caught e l s)
on_result l (ok stress) s =
    let bound = some (record { stress = stress; binding = l.captured }) in
    if not (is_current l s)
    then (s, ok none)
    else if scenario_matches bound l.captured
    then (record s { value = bound; shown = bound }, ok bound)
    else (s, caught other_scenario l s)

-- The time between a load's beginning and its answers is free: other steps may come there, other loads among them.
pub data Step (s : State) : State → Type 0 where
  sets : (next : Context) → Step s (set_context next s)
  clears : Step s (clear s)
  disposes : Step s (dispose s)
  begins : Step s (begin_load s).0
  settles :
      (l : Load) (network : Result Error ℕ) (earlier : State) (answer : Result Error Stress)
      → on_network l network earlier ≡ asks
      → Step s (on_result l answer s).0

pub data Reach (s : State) : State → Type 0 where
  here : Reach s s
  next : {t u : State} → Reach s t → Step t u → Reach s u

-- ===== src/Scenario/Examples.antt =====
-- A scenario that arrives for the wallet that asked, and one that arrives for a wallet that was left.
use oncm.Prelude.{◌≡◌, refl, none, some, ok}
use oncm.Scenario.{
  Context, Stress, State, initial, set_context, Load, begin_load, on_network, asks, on_result, here,
  next, sets, begins, settles,
}
use oncm.Scenario.Bound.{IsBound, Reach-IsBound}

abbrev selected : Context
selected = record { client = some 1; account = some 10; pool = some 7; chain_id = some 31373 }

abbrev other_wallet : Context
other_wallet = record selected { account = some 11 }

abbrev stress : Stress
stress = record { account = some 10; pool = some 7; figures = 500 }

abbrev loading : State
loading = (begin_load (set_context selected initial)).0

abbrev load : Load
load = record { ticket = 2; captured = selected }

abbrev arrived : State
arrived = (on_result load (ok stress) loading).0

began : (begin_load (set_context selected initial)).1 ≡ ok load
unfolding begin_load set_context
began = refl

shows : arrived.shown ≡ some (record { stress = stress; binding = selected })
unfolding begin_load set_context on_result
shows = refl

left :
    on_result load (ok stress) (set_context other_wallet loading)
    ≡ (set_context other_wallet loading, ok none)
unfolding begin_load set_context on_result
left = refl

asked : on_network load (ok 31373) loading ≡ asks
unfolding begin_load set_context on_network
asked = refl

Reach-IsBound_example : IsBound arrived
Reach-IsBound_example = Reach-IsBound (
    next (next (next here (sets selected)) begins)
      (settles load (ok 31373) loading (ok stress) asked))

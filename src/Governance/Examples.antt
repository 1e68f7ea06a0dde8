-- ===== src/Governance/Examples.antt =====
-- governance.mjs: proposals in two states.
use oncm.Prelude.{◌≡◌, refl, true, false, none, some}
use oncm.Governance.{
  Situation, vote, execute, cancel, yes_eligible, refused, already_voted, needs_queued, connected,
  connect_wallet, governance_eligibility,
}

program : Unit {0}
unfolding governance_eligibility connected
program = tt

abbrev active_one : Situation
active_one = record {
  state = 1;
  account = some 7;
  proposer = 9;
  has_voted = false;
  snapshot_votes = some 3;
  eta = 0;
  timestamp = 50;
}

votes : governance_eligibility active_one vote ≡ yes_eligible
unfolding program
votes = refl

votes_twice :
    governance_eligibility (record active_one { has_voted = true }) vote ≡ refused already_voted
unfolding program
votes_twice = refl

executes_early : governance_eligibility active_one execute ≡ refused needs_queued
unfolding program
executes_early = refl

nobody :
    governance_eligibility (record active_one { account = none }) cancel ≡ refused connect_wallet
unfolding program
nobody = refl

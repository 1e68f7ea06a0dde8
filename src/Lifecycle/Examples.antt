-- ===== src/Lifecycle/Examples.antt =====
-- A wallet that signs in, and one whose account changes meanwhile.
use oncm.Prelude.{◌≡◌, refl, true, some, [], ◌∷◌, ok, throw}
use oncm.Lifecycle.{
  injected, State, current, activate, Reach, here, next, activates, Session, Outside, sign_in,
  authenticate_wallet, changed_during,
}
use oncm.Lifecycle.Tickets.{SignedIn, Settled, authenticate_wallet-Settled}

abbrev session : Session
session = record { address = some "0x0a"; token = some 5 }

abbrev connected_state : State
connected_state = record { epoch = 3; mode = injected }

abbrev steady : Outside
steady = record {
  at_start = connected_state;
  at_nonce = connected_state;
  at_signature = connected_state;
  at_session = connected_state;
  nonce = some 1;
  sign = λ n a. some 2;
  verify = λ s. some session;
}

abbrev switched : Outside
switched = record steady { at_session = record { epoch = 4; mode = injected } }

signs_in : authenticate_wallet steady 3 "0x0a" ≡ ([], ok session)
unfolding authenticate_wallet
signs_in = refl

revokes : authenticate_wallet switched 3 "0x0a" ≡ (5 ∷ [], throw changed_during)
unfolding authenticate_wallet
revokes = refl

given : sign_in switched 3 "0x0a" ≡ ok session
unfolding sign_in
given = refl

activated : Reach connected_state (activate 3 injected connected_state).0
activated = next here (activates 3 injected)

still : current 3 (activate 3 injected connected_state).0 ≡ true
unfolding current activate
still = refl

authenticate_wallet-Settled_example :
    SignedIn switched 3 × Settled switched 3 "0x0a" session (authenticate_wallet switched 3 "0x0a")
authenticate_wallet-Settled_example = authenticate_wallet-Settled switched 3 "0x0a" session given

-- ===== src/Lifecycle/Tickets.antt =====
-- wallet-lifecycle.mjs: a ticket that is not current never becomes so, and a session belongs to the ticket it was asked for with.
use oncm.Prelude.{
  ℕ, ◌≤◌, ◌≡◌, refl, ap, inl, inr, Bool, true, false, not, Option, none, some, List, [], ==_iff,
  String, is_same_iff, Result, ok, throw, throw_if-ok, >>=-eq-ok, Bool-cases, arith,
}
use oncm.Lifecycle.{
  State, current, invalidate, activate, is_injected, handle, Step, invalidates, activates, handles,
  Reach, here, next, Error, Session, Outside, assert_current, answer_or_fail, sign_in, is_address,
  token_list, settle_session, authenticate_wallet,
}

Step-epoch : {s t : State} → Step s t → s.epoch ≤ t.epoch
unfolding invalidate activate handle
Step-epoch invalidates = omega arith
Step-epoch {s} (activates ticket mode) = elim (Bool-cases (current ticket s)) [
  | inl e ↦ rw (e, activate) (omega arith)
  | inr e ↦ rw (e, activate) (omega arith)
]
Step-epoch {s} handles = elim (Bool-cases (is_injected s.mode)) [
  | inl e ↦ rw (e, handle) (omega arith)
  | inr e ↦ rw (e, handle) (omega arith)
]

Reach-epoch : {s t : State} → Reach s t → s.epoch ≤ t.epoch
Reach-epoch here = omega arith
Reach-epoch (next r e) = omega (arith, Reach-epoch r, Step-epoch e)

-- A ticket that was given out no later than at some time, and is current at a later time, was current at the former: between them nothing
-- has invalidated it, and a ticket that is once not current is never so again.
pub Reach-current :
    {s t : State} (ticket : ℕ)
    → Reach s t
    → ticket ≤ s.epoch
    → current ticket t ≡ true
    → current ticket s ≡ true
unfolding current
Reach-current {s} {t} ticket r h c =
    let e = (==_iff ticket t.epoch).0 c in
    (==_iff ticket s.epoch).1 (omega (arith, e, h, Reach-epoch r))

-- An event of an injected wallet leaves no earlier ticket current.
pub handle-current :
    (s : State) (ticket : ℕ)
    → is_injected s.mode ≡ true
    → ticket ≤ s.epoch
    → current ticket (handle s).0 ≡ false
unfolding current handle invalidate
handle-current s ticket h le = rw (h, handle) (ground arith)

asserted :
    (ticket : ℕ) (s : State) {u : Unit {0}}
    → assert_current ticket s ≡ ok u
    → current ticket s ≡ true
unfolding assert_current
asserted ticket s h =
    is_true (current ticket s) (throw_if-ok (not (current ticket s)) Error.changed h)
  where
    is_true : (b : Bool) → not b ≡ false → b ≡ true
    is_true true e = refl
    is_true false e = cc

abbrev pub SignedIn : Outside → ℕ → Type 0
SignedIn out ticket =
    (current ticket out.at_start ≡ true)
    × (current ticket out.at_nonce ≡ true)
    × (current ticket out.at_signature ≡ true)

sign_in-SignedIn :
    (out : Outside) (ticket : ℕ) (address : String) (session : Session)
    → sign_in out ticket address ≡ ok session
    → SignedIn out ticket
unfolding sign_in
sign_in-SignedIn out ticket address session h =
    let (_, a, h1) = >>=-eq-ok (assert_current ticket out.at_start) _ h in
    let (challenge, _, h2) = >>=-eq-ok (answer_or_fail out.nonce) _ h1 in
    let (_, b, h3) = >>=-eq-ok (assert_current ticket out.at_nonce) _ h2 in
    let (signature, _, h4) = >>=-eq-ok (answer_or_fail (out.sign challenge address)) _ h3 in
    let (_, c, h5) = >>=-eq-ok (assert_current ticket out.at_signature) _ h4 in
    (
      asserted ticket out.at_start a,
      asserted ticket out.at_nonce b,
      asserted ticket out.at_signature c,
    )

-- What becomes of a session that the server has given: it is returned for the current ticket and the address asked for, or revoked.
abbrev pub Settled : Outside → ℕ → String → Session → List ℕ × Result Error Session → Type 0
Settled out ticket address given (revoked, throw e) = revoked ≡ token_list given.token
Settled out ticket address given (revoked, ok session) =
    (session ≡ given)
    × (revoked ≡ [])
    × (current ticket out.at_session ≡ true)
    × (given.address ≡ some address)

address-eq : (o : Option String) (address : String) → is_address o address ≡ true → o ≡ some address
address-eq none address h = cc
address-eq (some a) address h = ap (λ x. some x) ((is_same_iff a address).0 h)

settle_session-Settled :
    (out : Outside) (ticket : ℕ) (address : String) (given : Session)
    → Settled out ticket address given (settle_session out ticket address (ok given))
unfolding settle_session
settle_session-Settled out ticket address given =
    elim (Bool-cases (current ticket out.at_session)) [
      | inr late ↦ rw (late, settle_session) refl
      | inl on_time ↦ elim (Bool-cases (is_address given.address address)) [
        | inr other ↦ rw (on_time, other, settle_session) refl
        | inl same ↦
            rw (on_time, same, settle_session)
              (refl, refl, on_time, address-eq given.address address same)
      ]
    ]

-- A session that the server gives was asked for while the ticket was current, at each of the three times that the code looks; then it is
-- either returned, with the ticket still current and the address that signs in, or no session is returned and its token is revoked.
pub authenticate_wallet-Settled :
    (out : Outside) (ticket : ℕ) (address : String) (given : Session)
    → sign_in out ticket address ≡ ok given
    → SignedIn out ticket
      × Settled out ticket address given (authenticate_wallet out ticket address)
unfolding authenticate_wallet
authenticate_wallet-Settled out ticket address given h = (
  sign_in-SignedIn out ticket address given h,
  rw (h, authenticate_wallet) (settle_session-Settled out ticket address given),
)

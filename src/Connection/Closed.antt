-- ===== src/Connection/Closed.antt =====
-- wallet-connection.mjs: a connection that has ended goes no further, whatever the wallet's windows are answered.
use oncm.Prelude.{ℕ, ◌≡◌, ◌≢◌, refl, ◌∙◌, inl, inr, true, ok, Bool-cases, arith, subst, sym}
use oncm.Connection.{
  closed, State, is_waiting, without, request, expire, Answer, result, error, settled, answer,
  finish, close, Step, requests, expires, answers, finishes, closes, Reach, here, next,
}

-- The connection has ended, and since an earlier state nothing was sent and no promise fulfilled.
abbrev pub Ended : State → State → Type 0
Ended s t = (t.phase ≡ closed) × (t.sent ≡ s.sent) × (t.resolved ≡ s.resolved)

expire-Ended : (id : ℕ) (s : State) → s.phase ≡ closed → Ended s (expire id s).0
unfolding expire
expire-Ended id s h = elim (Bool-cases (is_waiting id s.waiting)) [
  | inl e ↦ rw (e, expire) (refl, refl, refl)
  | inr e ↦ rw (e, expire) (h, refl, refl)
]

expire-eq :
    (id : ℕ) (s : State)
    → is_waiting id s.waiting ≡ true
    → (expire id s).0 ≡ record s { phase = closed; waiting = without id s.waiting }
unfolding expire
expire-eq id s h = rw (h, expire) refl

settled-Ended : (a : Answer) (id : ℕ) (s : State) → s.phase ≡ closed → Ended s (settled a id s).0
settled-Ended (error pending e) id s h = (h, refl, refl)
settled-Ended (result r) id s h = rw h (refl, refl, refl)

answer-Ended : (a : Answer) (id : ℕ) (s : State) → s.phase ≡ closed → Ended s (answer a id s).0
unfolding answer
answer-Ended a id s h = elim (Bool-cases (is_waiting id s.waiting)) [
  | inl e ↦ rw (e, answer) (settled-Ended a id s h)
  | inr e ↦ rw (e, answer) (h, refl, refl)
]

request-Ended : (id : ℕ) (s : State) → s.phase ≡ closed → Ended s (request id s).0
unfolding request
request-Ended id s h = rw (h, request) (refl, refl, refl)

finish-closed : (s t : State) → s.phase ≡ closed → finish s ≢ ok t
unfolding finish
finish-closed s t h e = ground arith

Step-Ended : {s t : State} → s.phase ≡ closed → Step s t → Ended s t
unfolding close
Step-Ended {s} h (requests id) = request-Ended id s h
Step-Ended {s} h (expires id) = expire-Ended id s h
Step-Ended {s} h (answers a id) = answer-Ended a id s h
Step-Ended {s} h (finishes t e) = absurd (finish-closed s t h e)
Step-Ended {s} h closes = (refl, refl, refl)

Reach-Ended : {s t : State} → s.phase ≡ closed → Reach s t → Ended s t
Reach-Ended h here = (h, refl, refl)
Reach-Ended h (next r e) =
    let (a, b, c) = Reach-Ended h r in let (x, y, z) = Step-Ended a e in (x, y ∙ b, z ∙ c)

-- Once the time of a request is over before the wallet has answered it, the connection has ended for good: whatever is asked, answered, finished or
-- closed later, the wallet gets no request, and no promise that still waits is fulfilled, be the late answer an approval.
pub timeout_ends :
    (s : State) {t : State} (id : ℕ)
    → is_waiting id s.waiting ≡ true
    → Reach (expire id s).0 t
    → Ended s t
unfolding expire
timeout_ends s {t} id h r =
    let start = expire-eq id s h in
    subst (λ u. Reach u t → Ended s t) (sym start) (λ r'. Reach-Ended refl r') r

-- ===== src/PublicSurface/Slots.antt =====
-- public-surface.mjs, `publicRouteWrapper`: the slots of the handlers, and what each request is answered.
-- A handler's request is in `open` from its admission until the handler's promise settles.
use oncm.Prelude.{
  ◌-◌, ℕ, ◌+◌, ◌≤◌, ◌<◌, ◌≡◌, sym, ◌∙◌, inl, inr, Bool, Option, none, some, List, [], ◌∷◌, length,
  leb, ltb, if◌then◌else◌, ℕ_discrete, arith, Option-cases, Bool-cases,
}
use oncm.Prelude.Keyed.{
  get, put, delete, IsMap, put-IsMap, delete-IsMap, length-put_hit, length-delete_hit,
}

-- `sent` is what the response has sent: a status, or the error handler's answer.
pub data Sent : Type 0 where
  answered : ℕ → Sent
  passed_on : Sent

pub record State : Type 0 where
  pub active : ℕ
  pub open_requests : List (ℕ × Option Sent)
  pub done : List (ℕ × Option Sent)

pub record Limits : Type 0 where
  pub max_inflight : ℕ
  pub response_bytes : ℕ

-- A request that finds no slot is answered 429, and its handler does not run.
unfoldable pub arrive : Limits → ℕ → State → State
arrive l id s =
    if leb l.max_inflight s.active
    then record s { done = (id, some (answered 429)) ∷ s.done }
    else record s { active = s.active + 1; open_requests = put ℕ_discrete id none s.open_requests }

-- `res.json(value)` with the status that the handler has set
unfoldable pub respond : Limits → ℕ → ℕ → ℕ → Option Sent → Option Sent
respond l status bytes id (some sent) = some sent
respond l status bytes id none =
    if ltb l.response_bytes bytes then some (answered 503) else some (answered status)

unfoldable pub set_sent : ℕ → (Option Sent → Option Sent) → State → State
set_sent id f s = elim (get ℕ_discrete id s.open_requests) [
  | none ↦ s
  | some sent ↦ record s { open_requests = put ℕ_discrete id (f sent) s.open_requests }
]

unfoldable pub send_json : Limits → ℕ → ℕ → ℕ → State → State
unfolding set_sent respond
send_json l id status bytes s = set_sent id (respond l status bytes id) s

abbrev pub unless_sent : Sent → Option Sent → Option Sent
unless_sent x none = some x
unless_sent x (some sent) = some sent

-- the timer
unfoldable pub time_out : ℕ → State → State
unfolding set_sent
time_out id s = set_sent id (unless_sent (answered 504)) s

-- The handler's promise settles: `failed` where it was rejected.
unfoldable pub finish : ℕ → Bool → State → State
finish id failed s = elim (get ℕ_discrete id s.open_requests) [
  | none ↦ s
  | some sent ↦ record {
    active = s.active - 1;
    open_requests = delete ℕ_discrete id s.open_requests;
    done = (id, if failed then unless_sent passed_on sent else sent) ∷ s.done;
  }
]

-- An identifier is a request: it arrives once.
pub data Step (l : Limits) : State → State → Type 0 where
  arrives :
      (s : State) (id : ℕ) → get ℕ_discrete id s.open_requests ≡ none → Step l s (arrive l id s)
  sends : (s : State) (id status bytes : ℕ) → Step l s (send_json l id status bytes s)
  times_out : (s : State) (id : ℕ) → Step l s (time_out id s)
  finishes : (s : State) (id : ℕ) (failed : Bool) → Step l s (finish id failed s)

pub data Reach (l : Limits) (s : State) : State → Type 0 where
  here : Reach l s s
  next : {t u : State} → Reach l s t → Step l t u → Reach l s u

unfoldable pub start : State
start = record { active = 0; open_requests = []; done = [] }

-- The counter is the number of handlers that have not settled, and it stays within the bound.
pub record Counted (l : Limits) (s : State) : Type 0 where
  pub distinct : IsMap ℕ_discrete s.open_requests
  pub counted : s.active ≡ length s.open_requests
  pub bounded : s.active ≤ l.max_inflight

length-put_fresh :
    (id : ℕ) (v : Option Sent) (m : List (ℕ × Option Sent))
    → get ℕ_discrete id m ≡ none
    → length (put ℕ_discrete id v m) ≡ length m + 1
unfolding put get
length-put_fresh id v [] h = omega arith
length-put_fresh id v ((j, w) ∷ m) h = ground (arith, length-put_fresh id v m)

arrive-Counted :
    (l : Limits) (id : ℕ) (s : State)
    → get ℕ_discrete id s.open_requests ≡ none
    → Counted l s
    → Counted l (arrive l id s)
unfolding arrive
arrive-Counted l id s h v = elim (Bool-cases (leb l.max_inflight s.active)) [
  | inl full ↦
      rw (full, arrive) (record { distinct = v.distinct; counted = v.counted; bounded = v.bounded })
  | inr room ↦
      let lt : s.active < l.max_inflight = ground arith in
      rw (room, arrive)
        (record {
          distinct = put-IsMap ℕ_discrete id none s.open_requests v.distinct;
          counted = omega (arith, v.counted, length-put_fresh id none s.open_requests h);
          bounded = omega (arith, lt);
        })
]

set_sent-Counted :
    (l : Limits) (id : ℕ) (f : Option Sent → Option Sent) (s : State)
    → Counted l s
    → Counted l (set_sent id f s)
unfolding set_sent
set_sent-Counted l id f s v = elim (Option-cases (get ℕ_discrete id s.open_requests)) [
  | inl e ↦ rw (e, set_sent) v
  | inr (sent, e) ↦
      rw (e, set_sent)
        (record {
          distinct = put-IsMap ℕ_discrete id (f sent) s.open_requests v.distinct;
          counted = v.counted ∙ sym (length-put_hit ℕ_discrete id (f sent) s.open_requests e);
          bounded = v.bounded;
        })
]

finish-Counted :
    (l : Limits) (id : ℕ) (failed : Bool) (s : State) → Counted l s → Counted l (finish id failed s)
unfolding finish
finish-Counted l id failed s v = elim (Option-cases (get ℕ_discrete id s.open_requests)) [
  | inl e ↦ rw (e, finish) v
  | inr (sent, e) ↦
      rw (e, finish)
        (record {
          distinct = delete-IsMap ℕ_discrete id s.open_requests v.distinct;
          counted = omega (arith, v.counted, length-delete_hit ℕ_discrete id s.open_requests e);
          bounded = omega (arith, v.bounded);
        })
]

-- However requests arrive, time out, answer and settle, the number of handlers that have not settled is at most
-- `maxInflight`, and it is what the counter says: a request that has timed out keeps its slot until its handler settles.
pub Reach-Counted : (l : Limits) {s t : State} → Reach l s t → Counted l s → Counted l t
unfolding send_json time_out
Reach-Counted l here v = v
Reach-Counted l (next r (arrives s id h)) v = arrive-Counted l id s h (Reach-Counted l r v)
Reach-Counted l (next r (sends s id status bytes)) v =
    set_sent-Counted l id (respond l status bytes id) s (Reach-Counted l r v)
Reach-Counted l (next r (times_out s id)) v =
    set_sent-Counted l id (unless_sent (answered 504)) s (Reach-Counted l r v)
Reach-Counted l (next r (finishes s id failed)) v =
    finish-Counted l id failed s (Reach-Counted l r v)

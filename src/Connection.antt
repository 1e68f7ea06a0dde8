-- ===== src/Connection.antt =====
-- implementations/vault/web/wallet-connection.mjs: requests to a wallet while a connection is made, each with a time limit.
-- A request is its number. Which methods have a text of their own, and the texts, are left out.
pub mod Closed
mod Examples
use oncm.Prelude.{
  ℕ, ◌≡◌, Bool, true, false, Option, none, some, List, [], ◌∷◌, ◌==◌, if◌then◌else◌, Result, ok,
  throw,
}

pub data Phase : Type 0 where
  connecting connected closed : Phase

pub data Error : Type 0 where
  ended timed_out already_waiting : Error
  of_wallet : ℕ → Error

-- How a promise of the wrapped provider ends; `forwarded` is the promise of the wallet itself.
pub data Reply : Type 0 where
  forwarded : Reply
  fulfilled : ℕ → Reply
  rejected : Error → Reply

-- `waiting`: the requests whose promise has not ended. `sent`: the requests that the wallet has got, the last one first. `resolved`: the promises that were
-- fulfilled, the last one first.
pub record State : Type 0 where
  pub phase : Phase
  pub waiting : List ℕ
  pub sent : List ℕ
  pub resolved : List ℕ

abbrev pub initial : State
initial = record { phase = connecting; waiting = []; sent = []; resolved = [] }

abbrev pub is_closed : Phase → Bool
is_closed closed = true
is_closed _ = false

abbrev pub is_waiting : ℕ → List ℕ → Bool
is_waiting id [] = false
is_waiting id (x ∷ xs) = if x == id then true else is_waiting id xs

abbrev pub without : ℕ → List ℕ → List ℕ
without id [] = []
without id (x ∷ xs) = let rest = without id xs in if x == id then rest else x ∷ rest

-- `request`: the state after it, and the end of its promise where that has ended.
abbrev pub request_in : Phase → ℕ → State → State × Option Reply
request_in closed id s = (s, some (rejected ended))
request_in connected id s = (record s { sent = id ∷ s.sent }, some forwarded)
request_in connecting id s = (record s { sent = id ∷ s.sent; waiting = id ∷ s.waiting }, none)

unfoldable pub request : ℕ → State → State × Option Reply
request id s = request_in s.phase id s

-- The timer of a request, which its answer clears.
unfoldable pub expire : ℕ → State → State × Option Reply
expire id s =
    if is_waiting id s.waiting
    then (record s { phase = closed; waiting = without id s.waiting }, some (rejected timed_out))
    else (s, none)

-- `fail`, with the code of the error where that is -32002
abbrev pub failure : Bool → Bool → ℕ → Error
failure true pending e = ended
failure false true e = already_waiting
failure false false e = of_wallet e

-- What the wallet answers: a result, or an error that may say that a request is pending already.
pub data Answer : Type 0 where
  result : ℕ → Answer
  error : Bool → ℕ → Answer

abbrev pub settled : Answer → ℕ → State → State × Option Reply
settled (error pending e) id s = (
  record s { waiting = without id s.waiting },
  some (rejected (failure (is_closed s.phase) pending e)),
)
settled (result r) id s =
    if is_closed s.phase
    then (record s { waiting = without id s.waiting }, some (rejected ended))
    else (
      record s { waiting = without id s.waiting; resolved = id ∷ s.resolved },
      some (fulfilled r),
    )

-- The answer to a request; to one whose promise has ended it changes nothing.
unfoldable pub answer : Answer → ℕ → State → State × Option Reply
answer a id s = if is_waiting id s.waiting then settled a id s else (s, none)

unfoldable pub finish : State → Result Error State
finish s = if is_closed s.phase then throw ended else ok (record s { phase = connected })

unfoldable pub close : State → State
close s = record s { phase = closed }

pub data Step (s : State) : State → Type 0 where
  requests : (id : ℕ) → Step s (request id s).0
  expires : (id : ℕ) → Step s (expire id s).0
  answers : (a : Answer) (id : ℕ) → Step s (answer a id s).0
  finishes : (t : State) → finish s ≡ ok t → Step s t
  closes : Step s (close s)

pub data Reach (s : State) : State → Type 0 where
  here : Reach s s
  next : {t u : State} → Reach s t → Step t u → Reach s u

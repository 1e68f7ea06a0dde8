-- ===== src/Lifecycle.antt =====
-- implementations/exchange/web/wallet-lifecycle.mjs: the generations of a wallet, and signing in within one of them.
pub mod Tickets
mod Examples
use oncm.Prelude.{
  ℕ, ◌+◌, Bool, true, false, ◌&&◌, not, Option, none, some, List, [], ◌∷◌, ◌==◌, if◌then◌else◌,
  String, is_same, Result, ok, throw, ◌>>=◌, ◌>>◌, throw_if,
}

-- `mode`: empty, `injected`, or another
pub data Mode : Type 0 where
  no_mode injected other_mode : Mode

pub record State : Type 0 where
  pub epoch : ℕ
  pub mode : Mode

abbrev pub initial : State
initial = record { epoch = 0; mode = no_mode }

unfoldable pub current : ℕ → State → Bool
current ticket s = ticket == s.epoch

unfoldable pub invalidate : State → State
invalidate s = record { epoch = s.epoch + 1; mode = no_mode }

-- whether the mode was set
unfoldable pub activate : ℕ → Mode → State → State × Bool
unfolding current
activate ticket next s =
    if current ticket s then (record { epoch = s.epoch; mode = next }, true) else (s, false)

abbrev pub is_injected : Mode → Bool
is_injected injected = true
is_injected _ = false

-- An event of the wallet: the state after it, and whether the page is told.
unfoldable pub handle : State → State × Bool
unfolding invalidate
handle s = if is_injected s.mode then (invalidate s, true) else (s, false)

pub data Step (s : State) : State → Type 0 where
  invalidates : Step s (invalidate s)
  activates : (ticket : ℕ) (next : Mode) → Step s (activate ticket next s).0
  handles : Step s (handle s).0

pub data Reach (s : State) : State → Type 0 where
  here : Reach s s
  next : {t u : State} → Reach s t → Step t u → Reach s u

pub data Error : Type 0 where
  changed changed_during failed : Error

-- `address` of a session, in small letters, if it has one
pub record Session : Type 0 where
  pub address : Option String
  pub token : Option ℕ

-- The states at the four times that the code looks, and what the server and the signer answer: `none` where they fail.
pub record Outside : Type 0 where
  pub at_start : State
  pub at_nonce : State
  pub at_signature : State
  pub at_session : State
  pub nonce : Option ℕ
  pub sign : ℕ → String → Option ℕ
  pub verify : ℕ → Option Session

unfoldable pub assert_current : ℕ → State → Result Error (Unit {0})
unfolding current
assert_current ticket s = throw_if (not (current ticket s)) changed

abbrev pub answer_or_fail : {A : Type 0} → Option A → Result Error A
answer_or_fail none = throw failed
answer_or_fail (some a) = ok a

-- up to the session that the server gives
unfoldable pub sign_in : Outside → ℕ → String → Result Error Session
unfolding assert_current
sign_in out ticket address = do
  assert_current ticket out.at_start
  challenge ← answer_or_fail out.nonce
  assert_current ticket out.at_nonce
  signature ← answer_or_fail (out.sign challenge address)
  assert_current ticket out.at_signature
  answer_or_fail (out.verify signature)

abbrev pub is_address : Option String → String → Bool
is_address none address = false
is_address (some a) address = is_same a address

abbrev pub token_list : Option ℕ → List ℕ
token_list none = []
token_list (some t) = t ∷ []

-- The last test: a session that is not returned is revoked, if it has a token.
unfoldable pub settle_session :
    Outside → ℕ → String → Result Error Session → List ℕ × Result Error Session
unfolding current
settle_session out ticket address (throw e) = ([], throw e)
settle_session out ticket address (ok session) =
    if current ticket out.at_session && is_address session.address address
    then ([], ok session)
    else (token_list session.token, throw changed_during)

-- `authenticateWallet`: the tokens that were revoked, and the session
unfoldable pub authenticate_wallet : Outside → ℕ → String → List ℕ × Result Error Session
unfolding sign_in settle_session
authenticate_wallet out ticket address =
    settle_session out ticket address (sign_in out ticket address)

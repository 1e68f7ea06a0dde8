-- ===== src/RemoteSlot.antt =====
-- tools/lean-zk/remote/remote-slot.mjs: the slot that one remote proof may hold. `File` is
-- active.json; a claim and a release are what runs while the directory `metadata-lock` is held.
pub mod Exclusion
mod Examples
use Prim.Native.Char.{code}
use oncm.Prelude.{
  ℕ, Bool, true, false, ◌&&◌, ◌||◌, not, Option, none, some, List, ◌∷◌, leb, ◌==◌, if◌then◌else◌,
  String, is_same, chars, every_char, Result, ok, throw, ◌>>=◌, ◌>>◌, throw_if,
}

pub data Error : Type 0 where
  invalid_binding not_absolute slot_busy unreadable different_request : Error

pub record Request : Type 0 where
  pub repository : String
  pub digest : String
  pub commit : String

-- `token` is the identifier that `randomUUID` gave.
pub record Slot : Type 0 where
  pub request : Request
  pub token : ℕ

pub data File : Type 0 where
  missing corrupt : File
  holds : Slot → File

unfoldable pub is_hex : ℕ → Bool
is_hex c = (leb 48 c && leb c 57) || (leb 97 c && leb c 102)

-- `[A-Za-z0-9_.-]`
unfoldable pub is_name : ℕ → Bool
is_name c =
    (leb 65 c && leb c 90)
    || (leb 97 c && leb c 122)
    || (leb 48 c && leb c 57)
    || (c == 95)
    || (c == 46)
    || (c == 45)

-- `/^[A-Za-z0-9_.-]+\/[A-Za-z0-9_.-]+$/`, from the middle of the owner on
unfoldable pub repository_from : Bool → String → Bool
unfolding is_name
repository_from some_owner String.[] = false
repository_from some_owner (String.◌∷◌ c s) =
    let rest = repository_from true s in
    if code c == 47
    then some_owner && leb 1 (chars s) && every_char is_name s
    else if is_name (code c)
    then rest
    else false

unfoldable pub is_bound : Request → Bool
unfolding is_hex repository_from
is_bound r =
    (every_char is_hex r.digest && (chars r.digest == 64))
    && (every_char is_hex r.commit && (chars r.commit == 40))
    && repository_from false r.repository

abbrev pub same : Request → Request → Bool
same a b =
    is_same a.digest b.digest && is_same a.commit b.commit && is_same a.repository b.repository

unfoldable pub load : File → Result Error (Option Slot)
load missing = ok none
load corrupt = throw unreadable
load (holds s) = ok (some s)

-- the operation of `claimRemoteSlot`: the file that it leaves and the slot that it gives
unfoldable pub claim : Request → ℕ → File → Result Error (File × Slot)
unfolding load
claim r token file = do
  existing ← load file
  elim existing [
    | some s ↦ if same s.request r then ok (file, s) else throw slot_busy
    | none ↦
        ok (holds (record { request = r; token = token }), record { request = r; token = token })
  ]

-- the operation of `releaseRemoteSlot`
unfoldable pub release : Slot → File → Result Error (File × Bool)
unfolding load
release slot file = do
  existing ← load file
  elim existing [
    | none ↦ ok (file, false)
    | some s ↦ do
      throw_if (not (same s.request slot.request) || not (s.token == slot.token)) different_request
      ok (missing, true)
  ]

pub data Operation : Type 0 where
  claiming : Request → ℕ → Operation
  releasing : Slot → Operation

-- The file that an operation leaves.
unfoldable pub run : Operation → File → Result Error File
run (claiming r token) file = do (left, _) ← claim r token file; ok left
run (releasing slot) file = do (left, _) ← release slot file; ok left

-- `lock`: whether the directory `metadata-lock` is there. `running`: the operations that are past its creation, of any processes, each with
-- the file as it has read it.
pub record State : Type 0 where
  pub lock : Bool
  pub running : List (Operation × Option File)
  pub file : File

-- what is checked before the lock is tried: the binding of a claim, and the directory
unfoldable pub admits : Bool → Operation → Result Error (Unit {0})
admits absolute (claiming r token) = do
  throw_if (not (is_bound r)) invalid_binding
  throw_if (not absolute) not_absolute
admits absolute (releasing slot) = throw_if (not absolute) not_absolute

unfoldable pub enter : Bool → Operation → State → Result Error State
unfolding admits
enter absolute op s = do
  admits absolute op
  if s.lock
      then throw slot_busy
      else ok (record s { lock = true; running = (op, none) ∷ s.running })

-- The operation ends on the file that it has read, and the lock is removed whatever comes of it; `others` go on.
unfoldable pub leave : Operation → File → List (Operation × Option File) → State → State
unfolding run
leave op read others s = elim (run op read) [
  | ok left ↦ record { lock = false; running = others; file = left }
  | throw _ ↦ record s { lock = false; running = others }
]

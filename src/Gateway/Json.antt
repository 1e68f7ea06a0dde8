-- ===== src/Gateway/Json.antt =====
-- rpc-gateway.mjs: the values that JSON.parse gives, and the tests on their shape.
use oncm.Prelude.{
  ℕ, Bool, true, false, ◌&&◌, Option, none, some, List, [], ◌∷◌, leb, if◌then◌else◌, String,
  is_same, includes, length, Result, ok, throw, throw_if, not,
}
use oncm.Prelude.Int.{ℤ}

-- A number is a numerator over a positive denominator, in lowest terms: `num n d` is n / (d + 1).
mutual
  pub data Json : Type 0 where
    null : Json
    bool : Bool → Json
    num : ℤ → ℕ → Json
    str : String → Json
    arr : Items → Json
    obj : Fields → Json

  pub data Items : Type 0 where
    nil : Items
    cons : Json → Items → Items

  pub data Fields : Type 0 where
    end : Fields
    field : String → Json → Fields → Fields

-- The codes of the errors: -32602, -32004, -32601 and -32005 by `fail`, and -32002 for one with no code of its own.
pub data Error : Type 0 where
  invalid_params writes_disabled no_method too_large upstream_failed : Error

abbrev pub items : Items → List Json
items nil = []
items (cons x xs) = x ∷ items xs

abbrev pub keys : Fields → List String
keys end = []
keys (field k v fs) = k ∷ keys fs

-- `x[key]`, with `none` for undefined
abbrev pub member : String → Fields → Option Json
member k end = none
member k (field j v fs) = if is_same j k then some v else member k fs

-- `{ ...x, [key]: value }`
unfoldable pub with_field : String → Json → Fields → Fields
with_field k v end = field k v end
with_field k v (field j w fs) =
    let rest = with_field k v fs in if is_same j k then field j v fs else field j w rest

abbrev pub all_included : List String → List String → Bool
all_included allowed [] = true
all_included allowed (k ∷ ks) = if includes allowed k then all_included allowed ks else false

-- `requireThat`
abbrev pub require_that : Bool → Result Error (Unit {0})
require_that b = throw_if (not b) invalid_params

-- `fields`
unfoldable pub fields_of : Json → List String → Result Error Fields
fields_of (obj fs) allowed = if all_included allowed (keys fs) then ok fs else throw invalid_params
fields_of _ allowed = throw invalid_params

-- `count`
unfoldable pub count : Json → ℕ → ℕ → Result Error (List Json)
count (arr xs) least most =
    if leb least (length (items xs)) && leb (length (items xs)) most
    then ok (items xs)
    else throw invalid_params
count _ least most = throw invalid_params

unfoldable pub text_of : Json → Result Error String
text_of (str s) = ok s
text_of _ = throw invalid_params

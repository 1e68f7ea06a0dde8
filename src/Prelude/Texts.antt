-- ===== src/Prelude/Texts.antt =====
-- Native texts: equality, and tests of each of their characters.
use Prim.Native.Char.{code}
use Prim.Native.String.{String}
use Prim.Native.Nat.{ℕ, suc, ◌+◌, compare, Ordering}
use mathlib.Core.Option.{Option, none, some}
use mathlib.Core.List.{List, [], ◌∷◌}
use mathlib.Core.Path.{◌≡◌, refl}
use mathlib.Core.Logic.{◌↔◌, ◌≢◌}
use mathlib.Core.Bool.{Bool, true, false}
use text.Mathlib.Text.{◌==◌}
use text.Mathlib.TextEquality.{eq_iff}
use oncm.Prelude.Tests.{if◌then◌else◌, ltb}

-- `s === t`
abbrev pub is_same : String → String → Bool
is_same s t = s == t

pub is_same_iff : (s t : String) → (is_same s t ≡ true) ↔ (s ≡ t)
is_same_iff s t = eq_iff s t

-- The number of a text's characters.
abbrev pub chars : String → ℕ
chars String.[] = 0
chars (String.◌∷◌ c s) = suc (chars s)

-- Each character's number passes a test.
abbrev pub every_char : (ℕ → Bool) → String → Bool
every_char p String.[] = true
every_char p (String.◌∷◌ c s) = if p (code c) then every_char p s else false

-- `s.length`: the number of a text's UTF-16 units.
unfoldable pub utf16_length : String → ℕ
utf16_length String.[] = 0
utf16_length (String.◌∷◌ c s) = (if ltb (code c) 65536 then 1 else 2) + utf16_length s

-- What stands after a prefix, if the text begins with it.
unfoldable pub without_prefix : String → String → Option String
without_prefix String.[] s = some s
without_prefix (String.◌∷◌ c p) String.[] = none
without_prefix (String.◌∷◌ c p) (String.◌∷◌ d s) =
    let rest = without_prefix p s in
    elim (compare (code c) (code d)) [ Ordering.eq ↦ rest | _ ↦ none ]

pub is_same-ne : (s t : String) → is_same s t ≡ false → s ≢ t
is_same-ne s t h p = cc ((is_same_iff s t).1 p, h)

abbrev pub decide_same : {s t : String} → (b : Bool) → is_same s t ≡ b → Dec (s ≡ t)
decide_same {s} {t} true e = yes ((is_same_iff s t).0 e)
decide_same {s} {t} false e = no (is_same-ne s t e)

abbrev pub String-discrete : Discrete String
String-discrete s t = decide_same (is_same s t) refl

-- `list.includes(s)`
abbrev pub includes : List String → String → Bool
includes [] s = false
includes (x ∷ xs) s = if is_same x s then true else includes xs s

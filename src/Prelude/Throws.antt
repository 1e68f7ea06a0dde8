-- ===== src/Prelude/Throws.antt =====
-- A JavaScript function that may throw: the value it returns, or what it throws.
use mathlib.Core.Path.{◌≡◌, refl}
use mathlib.Core.Bool.{Bool, true, false}
use mathlib.Core.Logic.{◌⊎◌, inl, inr}

pub data Result {ℓ} (E : Type 0) (A : Type ℓ) : Type ℓ where
  ok : A → Result E A
  throw : E → Result E A

infixl 5 ◌>>=◌ ◌>>◌
abbrev pub ◌>>=◌ {ℓ κ} :
    {E : Type 0} {A : Type ℓ} {B : Type κ} → Result E A → (A → Result E B) → Result E B
ok a >>= f = f a
throw e >>= f = throw e

abbrev pub ◌>>◌ {ℓ} : {E : Type 0} {B : Type ℓ} → Result E (Unit {0}) → Result E B → Result E B
m >> k = m >>= λ _. k

-- `if (b) throw e;`
abbrev pub throw_if : {E : Type 0} → Bool → E → Result E (Unit {0})
throw_if true e = throw e
throw_if false e = ok tt

-- Inversion of a successful bind, for proofs where the parts stay shut.
pub >>=-eq-ok {ℓ κ} :
    {E : Type 0} {X : Type ℓ} {Y : Type κ} (first : Result E X) (rest : X → Result E Y) {out : Y}
    → (first >>= rest) ≡ ok out
    → (x : X) × (first ≡ ok x) × (rest x ≡ ok out)
>>=-eq-ok (throw thrown) rest h = cc
>>=-eq-ok (ok x) rest h = (x, refl, h)

-- A chain does not throw what none of its steps throws.
pub >>=-ne {ℓ κ} :
    {E : Type 0} {A : Type ℓ} {B : Type κ} (e : E) (m : Result E A) (f : A → Result E B)
    → ¬ (m ≡ throw e)
    → ((a : A) → m ≡ ok a → ¬ (f a ≡ throw e))
    → ¬ ((m >>= f) ≡ throw e)
>>=-ne e (ok a) f h k p = k a refl p
>>=-ne e (throw d) f h k p = h (cc)

pub Result-cases {ℓ} :
    {E : Type 0} {A : Type ℓ} (r : Result E A) → ((e : E) × (r ≡ throw e)) ⊎ ((a : A) × (r ≡ ok a))
Result-cases (throw e) = inl (e, refl)
Result-cases (ok a) = inr (a, refl)

pub ok-injective {ℓ} :
    {E : Type 0} {A : Type ℓ} {a b : A} → ◌≡◌ {A = Result E A} (ok a) (ok b) → a ≡ b
ok-injective h = cc

pub throw_if-ok : {E : Type 0} (b : Bool) (e : E) {u : Unit {0}} → throw_if b e ≡ ok u → b ≡ false
throw_if-ok true e h = cc
throw_if-ok false e h = refl

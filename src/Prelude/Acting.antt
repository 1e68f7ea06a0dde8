-- ===== src/Prelude/Acting.antt =====
-- Asynchronous functions with a state: an action ends with a value or with an error, and leaves a state in either case.
use mathlib.Core.Path.{◌≡◌, refl}
use mathlib.Core.Bool.{Bool, true, false}
use mathlib.Core.Option.{Option, none, some}
use oncm.Prelude.Throws.{Result, ok, throw}

abbrev pub Act : Type 0 → Type 0 → Type 0 → Type 0
Act S E A = S → S × Result E A

module _ {S E : Type 0} where
  abbrev pub done : {A : Type 0} → A → Act S E A
  done a s = (s, ok a)

  abbrev pub fail : {A : Type 0} → E → Act S E A
  fail e s = (s, throw e)

  abbrev pub continue_with : {A B : Type 0} → (A → Act S E B) → S × Result E A → S × Result E B
  continue_with f (s, throw e) = (s, throw e)
  continue_with f (s, ok a) = f a s

  infixl 5 ◌>>=◌ ◌>>◌
  unfoldable pub ◌>>=◌ : {A B : Type 0} → Act S E A → (A → Act S E B) → Act S E B
  m >>= f = λ s. continue_with f (m s)

  abbrev pub ◌>>◌ : {A B : Type 0} → Act S E A → Act S E B → Act S E B
  m >> n = m >>= λ _. n

  -- A test that is not passed ends the action.
  abbrev pub check : Bool → E → Act S E (Unit {0})
  check true e = done tt
  check false e = fail e

  abbrev pub some_or : {A : Type 0} → E → Option A → Act S E A
  some_or e none = fail e
  some_or e (some a) = done a

  -- `J` holds where the action ends with an error, `Q` of the value and the state where it ends with a value.
  abbrev pub Ends : {A : Type 0} → (S → Type 0) → (A → S → Type 0) → S × Result E A → Type 0
  Ends J Q (s, throw e) = J s
  Ends J Q (s, ok a) = Q a s

  pub record Ensures {A : Type 0} (J P : S → Type 0) (Q : A → S → Type 0) (m : Act S E A)
      : Type 0 where
    pub ensures : (s : S) → P s → Ends J Q (m s)

  module _ {J : S → Type 0} where
    Ensures-continue :
        {A B : Type 0} {R : A → S → Type 0} {Q : B → S → Type 0} (f : A → Act S E B)
        (p : S × Result E A)
        → Ends J R p
        → ((a : A) → Ensures J (R a) Q (f a))
        → Ends J Q (continue_with f p)
    Ensures-continue f (s, throw e) h k = h
    Ensures-continue f (s, ok a) h k = (k a).ensures s h

    pub Ensures-then :
        {A B : Type 0} {P : S → Type 0} {R : A → S → Type 0} {Q : B → S → Type 0} {m : Act S E A}
        {f : A → Act S E B}
        → Ensures J P R m
        → ((a : A) → Ensures J (R a) Q (f a))
        → Ensures J P Q (m >>= f)
    unfolding ◌>>=◌
    Ensures-then {m = m} {f = f} h k = record {
      ensures = λ s p. Ensures-continue f (m s) (h.ensures s p) k;
    }

    pub Ensures-done :
        {A : Type 0} {P : S → Type 0} {Q : A → S → Type 0} {a : A}
        → ((s : S) → P s → Q a s)
        → Ensures J P Q (done a)
    Ensures-done k = record { ensures = k }

    pub Ensures-some :
        {A : Type 0} {P : S → Type 0} (e : E) (o : Option A)
        → ((s : S) → P s → J s)
        → Ensures J P (λ a s. P s × (o ≡ some a)) (some_or e o)
    Ensures-some e none k = record { ensures = k }
    Ensures-some e (some a) k = record { ensures = λ s p. (p, refl) }

    -- The conditions may be changed for others that follow, or that are followed by them.
    pub Ensures-weaken :
        {A : Type 0} {P P' : S → Type 0} {Q Q' : A → S → Type 0} {m : Act S E A}
        → ((s : S) → P' s → P s)
        → ((a : A) (s : S) → Q a s → Q' a s)
        → Ensures J P Q m
        → Ensures J P' Q' m
    Ensures-weaken {Q = Q} {Q' = Q'} {m = m} f g h = record {
      ensures = λ s p. weaken (m s) (h.ensures s (f s p));
    }
      where
        weaken : (p : _) → Ends J Q p → Ends J Q' p
        weaken (s, throw e) k = k
        weaken (s, ok a) k = g a s k

    -- What does not speak of the state is known while the action runs.
    pub Ensures-given :
        {A R : Type 0} {P : S → Type 0} {Q : A → S → Type 0} {m : Act S E A}
        → (R → Ensures J P Q m)
        → Ensures J (λ s. P s × R) Q m
    Ensures-given k = record { ensures = λ s (p, r). (k r).ensures s p }

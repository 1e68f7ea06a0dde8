-- ===== src/Community/Listing/Cycles.antt =====
-- community.mjs, `list`: following the parents ends, and after cycles are taken apart it ends at a comment without a parent.
use oncm.Prelude.{
  ℕ, ◌≡◌, refl, ◌∙◌, ◌⊎◌, inl, inr, true, false, Option, none, some, List, [], ◌∷◌, ◌++◌, All, ◌==◌,
  ==_iff, Bool-cases, subst, arith,
}
use oncm.Community.Listing.{Parents, has, set_at}

-- The parents lead, within the identifiers that are finished, to one that has no parent.
pub data Safe (finished : List ℕ) (parents : Parents) : ℕ → Type 0 where
  top : {x : ℕ} → has x finished ≡ true → parents x ≡ none → Safe finished parents x
  up :
      {x y : ℕ}
      → has x finished ≡ true
      → parents x ≡ some y
      → Safe finished parents y
      → Safe finished parents x

pub has-append_left : (x : ℕ) (xs ys : List ℕ) → has x xs ≡ true → has x (xs ++ ys) ≡ true
has-append_left x [] ys h = cc
has-append_left x (y ∷ xs) ys h = ground (arith, has-append_left x xs ys)

pub has-append_right : (x : ℕ) (xs ys : List ℕ) → has x ys ≡ true → has x (xs ++ ys) ≡ true
has-append_right x [] ys h = h
has-append_right x (y ∷ xs) ys h = ground (arith, has-append_right x xs ys)

pub has-append :
    (x : ℕ) (xs ys : List ℕ) → has x (xs ++ ys) ≡ true → (has x xs ≡ true) ⊎ (has x ys ≡ true)
has-append x [] ys h = inr h
has-append x (y ∷ xs) ys h = ground (arith, has-append x xs ys)

pub All-has {κ} : (P : ℕ → Type κ) (x : ℕ) (xs : List ℕ) → All P xs → has x xs ≡ true → P x
All-has P x [] h k = cc
All-has P x (y ∷ ys) h k = elim (Bool-cases (y == x)) [
  | inl e ↦ subst P ((==_iff y x).0 e) h.0
  | inr e ↦ All-has P x ys h.1 (ground arith)
]

pub has-All : (P : ℕ → Type 0) (xs : List ℕ) → ((x : ℕ) → has x xs ≡ true → P x) → All P xs
has-All P [] k = tt
has-All P (x ∷ xs) k = (k x (ground arith), has-All P xs (λ y h. k y (ground arith)))

-- Nothing but more identifiers are finished.
pub Safe-append :
    {finished : List ℕ} {p : Parents} {x : ℕ} (more : List ℕ)
    → Safe finished p x
    → Safe (more ++ finished) p x
Safe-append {x = x} more (top h e) = top (has-append_right x more _ h) e
Safe-append {x = x} more (up h e s) = up (has-append_right x more _ h) e (Safe-append more s)

abbrev pub cut : ℕ → Parents → Parents
cut root p = set_at root none p

cut_other : (root x : ℕ) (p : Parents) → (x == root) ≡ false → cut root p x ≡ p x
cut_other root x p h = rw h refl

pub cut_self : (root : ℕ) (p : Parents) → cut root p root ≡ none
cut_self root p = rw ((==_iff root root).1 refl) refl

pub different :
    (xs : List ℕ) (x root : ℕ) → has x xs ≡ true → has root xs ≡ false → (x == root) ≡ false
different xs x root h k = elim (Bool-cases (x == root)) [
  | inr e ↦ e
  | inl e ↦ cc (subst (λ z. has z xs ≡ true) ((==_iff x root).0 e) h, k)
]

-- An edge is taken out that leads from no finished identifier.
pub Safe-cut :
    {finished : List ℕ} {p : Parents} {x : ℕ} (root : ℕ)
    → has root finished ≡ false
    → Safe finished p x
    → Safe finished (cut root p) x
Safe-cut {finished} {p} {x} root absent (top h e) =
    top h (cut_other root x p (different finished x root h absent) ∙ e)
Safe-cut {finished} {p} {x} root absent (up h e s) =
    up h (cut_other root x p (different finished x root h absent) ∙ e) (Safe-cut root absent s)

-- Each identifier of a trail is the parent of the next, and the first has the parent `e`.
abbrev pub Chain : Parents → Option ℕ → List ℕ → Type 0
Chain p e [] = Unit
Chain p e (x ∷ xs) = (p x ≡ e) × Chain p (some x) xs

abbrev pub EndsSafe : List ℕ → Parents → Option ℕ → Type 0
EndsSafe finished p none = Unit
EndsSafe finished p (some y) = Safe finished p y

pub Chain-Safe :
    (finished : List ℕ) (p : Parents) (e : Option ℕ) (trail : List ℕ)
    → Chain p e trail
    → EndsSafe finished p e
    → All (λ x. has x finished ≡ true) trail
    → All (Safe finished p) trail
Chain-Safe finished p e [] c good h = tt
Chain-Safe finished p none (x ∷ xs) (e, c) good (h, hs) =
    (top h e, Chain-Safe finished p (some x) xs c (top h e) hs)
Chain-Safe finished p (some y) (x ∷ xs) (e, c) good (h, hs) =
    (up h e good, Chain-Safe finished p (some x) xs c (up h e good) hs)

pub Chain-cut :
    (root : ℕ) (p : Parents) (e : Option ℕ) (xs : List ℕ)
    → has root xs ≡ false
    → Chain p e xs
    → Chain (cut root p) e xs
Chain-cut root p e [] h c = tt
Chain-cut root p e (x ∷ xs) h (q, c) =
    (cut_other root x p (ground arith) ∙ q, Chain-cut root p (some x) xs (ground arith) c)

pub Chain-split :
    (p : Parents) (e : Option ℕ) (later earlier : List ℕ) (root : ℕ)
    → Chain p e (later ++ root ∷ earlier)
    → Chain p e later × Chain p (some root) earlier
Chain-split p e [] earlier root (q, c) = (tt, c)
Chain-split p e (x ∷ later) earlier root (q, c) =
    let (a, b) = Chain-split p (some x) later earlier root c in ((q, a), b)

-- ===== src/Community/Listing/Counts.antt =====
-- How often an identifier stands in a list.
use oncm.Prelude.{
  ℕ, ◌+◌, ◌≤◌, ◌≡◌, refl, inl, inr, true, false, List, [], ◌∷◌, ◌++◌, length, sum_of, sum_of-append,
  ◌==◌, if◌then◌else◌, Bool-cases, arith,
}
use oncm.Community.Listing.{has}

abbrev pub hits : ℕ → ℕ → ℕ
hits x y = if y == x then 1 else 0

unfoldable pub times : ℕ → List ℕ → ℕ
times x ys = sum_of (hits x) ys

pub times-has : (x : ℕ) (ys : List ℕ) → has x ys ≡ true → 1 ≤ times x ys
unfolding times
times-has x [] h = cc
times-has x (y ∷ ys) h = ground (arith, times-has x ys)

pub times_of_absent : (x : ℕ) (ys : List ℕ) → has x ys ≡ false → times x ys ≡ 0
unfolding times
times_of_absent x [] h = refl
times_of_absent x (y ∷ ys) h = ground (arith, times_of_absent x ys)

pub has-times : (x : ℕ) (ys : List ℕ) → 1 ≤ times x ys → has x ys ≡ true
has-times x ys h = elim (Bool-cases (has x ys)) [
  | inl e ↦ e
  | inr e ↦ absurd (omega (arith, times_of_absent x ys e))
]

pub absent-times : (x : ℕ) (ys : List ℕ) → times x ys ≡ 0 → has x ys ≡ false
absent-times x ys h = elim (Bool-cases (has x ys)) [
  | inr e ↦ e
  | inl e ↦ absurd (omega (arith, times-has x ys e))
]

pub times-append : (x : ℕ) (ys zs : List ℕ) → times x (ys ++ zs) ≡ times x ys + times x zs
unfolding times
times-append x ys zs = sum_of-append (hits x) ys zs

drop_one : ℕ → List ℕ → List ℕ
drop_one x [] = []
drop_one x (y ∷ ys) = if y == x then ys else y ∷ drop_one x ys

times-drop_one :
    (x z : ℕ) (ys : List ℕ) → has x ys ≡ true → times z (drop_one x ys) + hits z x ≡ times z ys
unfolding times drop_one
times-drop_one x z [] h = cc
times-drop_one x z (y ∷ ys) h = ground (arith, times-drop_one x z ys)

length-drop_one : (x : ℕ) (ys : List ℕ) → has x ys ≡ true → length (drop_one x ys) + 1 ≡ length ys
unfolding drop_one
length-drop_one x [] h = cc
length-drop_one x (y ∷ ys) h = ground (arith, length-drop_one x ys)

-- A list that holds nothing more often than another is no longer.
pub length-le : (xs ys : List ℕ) → ((x : ℕ) → times x xs ≤ times x ys) → length xs ≤ length ys
unfolding times
length-le [] ys h = omega arith
length-le (x ∷ xs) ys h =
    let present : has x ys ≡ true = has-times x ys (ground (arith, h x)) in
    let shorter : length xs ≤ length (drop_one x ys) =
      length-le xs (drop_one x ys) (λ z. omega (arith, h z, times-drop_one x z ys present)) in
    omega (arith, shorter, length-drop_one x ys present)

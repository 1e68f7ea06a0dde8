-- ===== src/Treasury/Allocation/Rounding.antt =====
-- treasury.mjs, `allocationWithTreasury`: the rounding, from the scaled shares to the dust.
use native.Mathlib.Nat.{mod-lt, div-add-mod}
use oncm.Prelude.{
  ℕ, zero, suc, ◌+◌, ◌-◌, ◌*◌, ◌≤◌, ◌<◌, ◌≡◌, refl, ap, List, [], ◌∷◌, map, length, sum_of, All,
  dec_le, ok, arith,
}
use oncm.Treasury.Allocation.{Row, Scaled, scale, spread}

module _ (remaining total : ℕ) (positive : 0 < total) where
  -- All that is shared out is the shares and the remainders.
  shares_add_up :
      (rs : List Row)
      → sum_of (λ r. r.weight) rs * remaining
        ≡ sum_of (λ (x : Scaled). x.weight) (map (scale remaining total) rs) * total
          + sum_of (λ (x : Scaled). x.remainder) (map (scale remaining total) rs)
  unfolding scale
  shares_add_up [] = omega arith
  shares_add_up (r ∷ rs) = omega (arith, shares_add_up rs, div-add-mod (r.weight * remaining) total)

  remainders_below :
      (rs : List Row)
      → sum_of (λ (x : Scaled). x.remainder) (map (scale remaining total) rs) + length rs
        ≤ length rs * total
  unfolding scale
  remainders_below [] = omega arith
  remainders_below (r ∷ rs) =
      omega (arith, remainders_below rs, mod-lt (r.weight * remaining) positive)

le_of_mul-le : (a b t : ℕ) → 0 < t → a * t ≤ b * t → a ≤ b
le_of_mul-le a b t h k = elim (dec_le a b) [ yes p ↦ p | no p ↦ absurd (grind arith) ]

mul_rest : (r f t : ℕ) → f ≤ r → (r - f) * t + f * t ≡ r * t
mul_rest r f t h = omega (arith, ap (λ (k : ℕ). k * t) (rejoin r f h))
  where
    rejoin : (r f : ℕ) → f ≤ r → (r - f) + f ≡ r
    rejoin r f h = omega arith

module _ (remaining : ℕ) (rs : List Row) where
  abbrev pub total : ℕ
  total = sum_of (λ r. r.weight) rs

  abbrev pub scaled : List Scaled
  scaled = map (scale remaining total) rs

  abbrev pub floors : ℕ
  floors = sum_of (λ (x : Scaled). x.weight) scaled

  -- The rounded shares do not exceed what is shared.
  pub floors-le : 0 < total → floors ≤ remaining
  floors-le h =
      le_of_mul-le floors remaining total h (omega (arith, shares_add_up remaining total h rs))

  -- The dust never runs past the end of the rows.
  pub dust-le-length : 0 < total → remaining - floors ≤ length rs
  dust-le-length h = le_of_mul-le (remaining - floors) (length rs) total h (
      omega (
        arith,
        mul_rest remaining floors total (floors-le h),
        shares_add_up remaining total h rs,
        remainders_below remaining total h rs,
      ))

-- A unit more for a row.
abbrev pub bump_row : Scaled → Scaled
bump_row x = record x { row = record (x.row) { weight = x.row.weight + 1 } }

-- A unit more for each of the first rows.
abbrev pub bump : ℕ → List Scaled → List Scaled
bump zero xs = xs
bump (suc dust) [] = []
bump (suc dust) (x ∷ xs) = bump_row x ∷ bump dust xs

-- Dust that fits is spread, one unit to a row, from the first row on.
pub spread-bump :
    (dust : ℕ) (xs : List Scaled) → dust ≤ length xs → spread dust xs ≡ ok (bump dust xs)
unfolding spread
spread-bump zero xs h = refl
spread-bump (suc dust) [] h = absurd (omega arith)
spread-bump (suc dust) (x ∷ xs) h = rw (spread-bump dust xs (omega arith))

pub sum_of-bump :
    (dust : ℕ) (xs : List Scaled)
    → dust ≤ length xs
    → sum_of (λ x. x.weight) (bump dust xs) ≡ sum_of (λ x. x.weight) xs + dust
sum_of-bump zero xs h = omega arith
sum_of-bump (suc dust) [] h = absurd (omega arith)
sum_of-bump (suc dust) (x ∷ xs) h = omega (arith, sum_of-bump dust xs (omega arith))

pub recipients-bump :
    (dust : ℕ) (xs : List Scaled)
    → map (λ x. x.recipient) (bump dust xs) ≡ map (λ x. x.recipient) xs
recipients-bump zero xs = refl
recipients-bump (suc dust) [] = refl
recipients-bump (suc dust) (x ∷ xs) = ap (◌∷◌ x.recipient) (recipients-bump dust xs)

-- What holds of a row with or without a unit more holds of every row after the dust.
pub All-bump :
    (P Q : Scaled → Type 0)
    → ((x : Scaled) → P x → Q x)
    → ((x : Scaled) → P x → Q (bump_row x))
    → (dust : ℕ) (xs : List Scaled) → All P xs
    → All Q (bump dust xs)
All-bump P Q same more zero [] a = tt
All-bump P Q same more zero (x ∷ xs) a = (same x a.0, All-bump P Q same more zero xs a.1)
All-bump P Q same more (suc dust) [] a = tt
All-bump P Q same more (suc dust) (x ∷ xs) a = (more x a.0, All-bump P Q same more dust xs a.1)

-- ===== src/Market/Revenue.antt =====
-- implementations/vault/sdk/revenue.mjs: the split of a collected fee between creator and protocol.
-- Amounts and percentages are unsigned, as the controller returns them; `one` stands for 100 %.
use native.Mathlib.Nat.{mod-lt, div-add-mod, mul-le-mul_right, le_of_mul-le-mul_right}
use oncm.Prelude.{
  ℕ, ◌+◌, ◌-◌, ◌*◌, ◌/◌, ◌^◌, ◌≤◌, ◌<◌, ◌≡◌, refl, ◌||◌, ltb, ◌==◌, if◌then◌else◌, Result, ok,
  throw, ◌>>=◌, arith, dec_lt,
}

pub data Error : Type 0 where
  bad_aggregate rounding_exceeds : Error

abbrev pub one : ℕ
one = 10 ^ 18

unfoldable pub ceil_div : ℕ → ℕ → ℕ
ceil_div a b = (a + b - 1) / b

-- the protocol's part, rounded up twice
unfoldable pub protocol_part : ℕ → ℕ → ℕ → ℕ
protocol_part amount protocol aggregate =
    ceil_div (ceil_div (amount * one) aggregate * protocol) one

unfoldable pub creator_from_aggregate : ℕ → ℕ → ℕ → ℕ → Result Error ℕ
creator_from_aggregate amount protocol creator aggregate =
    if amount == 0 || creator == 0
    then ok 0
    else if protocol == 0
    then ok amount
    else if aggregate == 0
    then throw bad_aggregate
    else if ltb amount (protocol_part amount protocol aggregate)
    then throw rounding_exceeds
    else ok (amount - protocol_part amount protocol aggregate)

unfoldable pub protocol_from_aggregate : ℕ → ℕ → ℕ → ℕ → Result Error ℕ
unfolding creator_from_aggregate
protocol_from_aggregate amount protocol creator aggregate = do
  c ← creator_from_aggregate amount protocol creator aggregate
  ok (amount - c)

ceil_div_bounds : (a b : ℕ) → 0 < b → (a ≤ ceil_div a b * b) × (ceil_div a b * b < a + b)
unfolding ceil_div
ceil_div_bounds a b h = omega (arith, div-add-mod (a + b - 1) b, mod-lt (a + b - 1) h)

-- Rounding up twice never takes less than the exact part.
protocol_part-ge :
    (amount protocol aggregate : ℕ)
    → 0 < aggregate
    → amount * protocol ≤ protocol_part amount protocol aggregate * aggregate
unfolding protocol_part
protocol_part-ge n p a h =
    le_of_mul-le-mul_right {k = one}
      (omega (
        arith,
        mul-le-mul_right p (ceil_div_bounds (n * one) a h).0,
        mul-le-mul_right a (ceil_div_bounds (ceil_div (n * one) a * p) one (omega arith)).0,
      ))
      (omega arith)

-- The creator's part and the protocol's add up to the collected amount. Without a creator's fee the
-- protocol has all of it, without a protocol fee the creator has; otherwise the protocol
-- has at least its exact part of the aggregate, so that rounding never favours the creator.
pub creator_add_protocol :
    (amount protocol creator aggregate c : ℕ)
    → creator_from_aggregate amount protocol creator aggregate ≡ ok c
    → (k : ℕ) × (protocol_from_aggregate amount protocol creator aggregate ≡ ok k)
      × (c + k ≡ amount)
      × (creator ≡ 0 → k ≡ amount)
      × (0 < creator → protocol ≡ 0 → c ≡ amount)
      × (0 < creator → amount * protocol ≤ k * aggregate)
unfolding protocol_from_aggregate creator_from_aggregate
creator_add_protocol n p c a x h = (
  n - x,
  rw h refl,
  ground arith,
  ground arith,
  ground arith,
  λ positive. elim (dec_lt 0 a) [
    | yes q ↦ ground (arith, protocol_part-ge n p a q)
    | no q ↦ ground arith
  ],
)

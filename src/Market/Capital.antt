-- ===== src/Market/Capital.antt =====
-- implementations/vault/sdk/capital.mjs: what a share of a two-token pool pays at settlement.
-- Balances are unsigned, as the token contract returns them.
use native.Mathlib.Nat.{mod-lt, div-add-mod, mul-le-mul_left, mul-le-mul_right}
use oncm.Prelude.{
  ℕ, ◌+◌, ◌*◌, ◌/◌, ◌≤◌, ◌<◌, ◌≡◌, refl, ap, List, [], ◌∷◌, ltb, ◌==◌, if◌then◌else◌, Result, ok,
  throw, ◌>>=◌, ◌>>◌, throw_if, throw_if-ok, >>=-eq-ok, ok-injective, subst, arith, dec_le,
  ℕ_discrete, ◌∙◌,
}
use oncm.Prelude.Int.{ℤ, pos, negsuc}

pub data Error : Type 0 where
  not_initialized bad_ownership not_two_tokens bad_pool : Error

pub record Pool : Type 0 where
  pub tokens : List ℕ
  pub balances : List ℕ
  pub total_supply : ℤ
  pub bpt_balance : ℤ
  pub collateral : ℕ
  pub side : ℕ

pub record Inventory : Type 0 where
  pub bpt_balance : ℕ
  pub total_supply : ℕ
  pub base_inventory : ℕ
  pub outcome_inventory : ℕ
  pub true_payout : ℕ
  pub false_payout : ℕ

-- `supply <= 0n` and `owned < 0n || owned > supply`
unfoldable pub read_supply : ℤ → Result Error ℕ
read_supply (negsuc n) = throw not_initialized
read_supply (pos n) = if n == 0 then throw not_initialized else ok n

unfoldable pub read_owned : ℕ → ℤ → Result Error ℕ
read_owned supply (negsuc n) = throw bad_ownership
read_owned supply (pos n) = if ltb supply n then throw bad_ownership else ok n

-- `tokens.findIndex(…)`, on the two tokens and their balances: the base's balance and the other's
unfoldable pub split_pair : ℕ → List ℕ → List ℕ → Result Error (ℕ × ℕ)
split_pair collateral (s ∷ t ∷ []) (b ∷ c ∷ []) =
    if s == collateral then ok (b, c) else if t == collateral then ok (c, b) else throw bad_pool
split_pair collateral _ _ = throw not_two_tokens

unfoldable pub settlement_inventory : Pool → Result Error Inventory
unfolding read_supply read_owned split_pair
settlement_inventory p = do
  supply ← read_supply p.total_supply
  owned ← read_owned supply p.bpt_balance
  (base_balance, outcome_balance) ← split_pair p.collateral p.tokens p.balances
  throw_if (ltb 1 p.side) bad_pool
  let base = base_balance * owned / supply
  let outcome = outcome_balance * owned / supply
  ok (record {
    bpt_balance = owned;
    total_supply = supply;
    base_inventory = base;
    outcome_inventory = outcome;
    true_payout = base + (if p.side == 0 then outcome else 0);
    false_payout = base + (if p.side == 1 then outcome else 0);
  })

-- Rounded parts of a sum fall short of the rounded sum by at most one.
floor_split :
    (x y s : ℕ) → 0 < s → (x / s + y / s ≤ (x + y) / s) × ((x + y) / s ≤ x / s + y / s + 1)
floor_split x y s h = (
  elim (dec_le (x / s + y / s) ((x + y) / s)) [
    | yes p ↦ p
    | no p ↦ absurd (
        omega (
          arith,
          div-add-mod x s,
          div-add-mod y s,
          div-add-mod (x + y) s,
          mod-lt (x + y) h,
          mul-le-mul_right {m = (x + y) / s + 1} {n = x / s + y / s} s (omega arith),
        ))
  ],
  elim (dec_le ((x + y) / s) (x / s + y / s + 1)) [
    | yes p ↦ p
    | no p ↦ absurd (
        omega (
          arith,
          div-add-mod x s,
          div-add-mod y s,
          div-add-mod (x + y) s,
          mod-lt x h,
          mod-lt y h,
          mul-le-mul_right {m = x / s + y / s + 2} {n = (x + y) / s} s (omega arith),
        ))
  ],
)

-- The part of a balance that an owner of `owned` out of `supply` takes.
abbrev pub part : ℕ → ℕ → ℕ → ℕ
part balance owned supply = balance * owned / supply

part-le :
    (balance owned supply : ℕ) → 0 < supply → owned ≤ supply → part balance owned supply ≤ balance
part-le balance owned supply h k = elim (dec_le (part balance owned supply) balance) [
  | yes p ↦ p
  | no p ↦ absurd (
      omega (
        arith,
        div-add-mod (balance * owned) supply,
        mul-le-mul_left {m = owned} {n = supply} balance k,
        mul-le-mul_right {m = balance + 1} {n = part balance owned supply} supply (omega arith),
      ))
]

part_whole : (balance supply : ℕ) → 0 < supply → part balance supply supply ≡ balance
part_whole balance supply h = elim (dec_le balance (part balance supply supply)) [
  | yes p ↦ omega (arith, p, part-le balance supply supply h (omega arith))
  | no p ↦ absurd (
      omega (
        arith,
        div-add-mod (balance * supply) supply,
        mod-lt (balance * supply) h,
        mul-le-mul_right {m = part balance supply supply + 1} {n = balance} supply (omega arith),
      ))
]

-- What an inventory is made of: the two balances, the owner's share of the supply, and the side.
pub record IsInventory (p : Pool) (i : Inventory) : Type 0 where
  pub base_balance : ℕ
  pub outcome_balance : ℕ
  pub found : split_pair p.collateral p.tokens p.balances ≡ ok (base_balance, outcome_balance)
  pub supply : p.total_supply ≡ pos i.total_supply
  pub owned : p.bpt_balance ≡ pos i.bpt_balance
  pub positive : 0 < i.total_supply
  pub share : i.bpt_balance ≤ i.total_supply
  pub base : i.base_inventory ≡ part base_balance i.bpt_balance i.total_supply
  pub outcome : i.outcome_inventory ≡ part outcome_balance i.bpt_balance i.total_supply
  pub paid_on_true :
      p.side ≡ 0
      → (i.true_payout ≡ i.base_inventory + i.outcome_inventory)
        × (i.false_payout ≡ i.base_inventory)
  pub paid_on_false :
      p.side ≡ 1
      → (i.false_payout ≡ i.base_inventory + i.outcome_inventory)
        × (i.true_payout ≡ i.base_inventory)
  pub binary : p.side ≤ 1

read_supply-ok : (n : ℤ) {s : ℕ} → read_supply n ≡ ok s → (n ≡ pos s) × (0 < s)
unfolding read_supply
read_supply-ok (pos n) h = ground arith
read_supply-ok (negsuc n) h = cc

read_owned-ok : (s : ℕ) (n : ℤ) {o : ℕ} → read_owned s n ≡ ok o → (n ≡ pos o) × (o ≤ s)
unfolding read_owned
read_owned-ok s (pos n) h = ground arith
read_owned-ok s (negsuc n) h = cc

-- An inventory that is returned is the owner's part of the two balances, rounded down; the outcome
-- tokens pay in the one case that they stand for, and the base tokens in both.
pub settlement_inventory-IsInventory :
    (p : Pool) (i : Inventory) → settlement_inventory p ≡ ok i → IsInventory p i
unfolding settlement_inventory
settlement_inventory-IsInventory p i h =
    let (s, hs, h1) = >>=-eq-ok (read_supply p.total_supply) _ h in
    let (o, ho, h2) = >>=-eq-ok (read_owned s p.bpt_balance) _ h1 in
    let ((b, c), found, h3) = >>=-eq-ok (split_pair p.collateral p.tokens p.balances) _ h2 in
    let (_, side, h4) = >>=-eq-ok (throw_if (ltb 1 p.side) bad_pool) _ h3 in
    subst (IsInventory p) (ok-injective h4) (record {
      base_balance = b;
      outcome_balance = c;
      found = found;
      supply = (read_supply-ok p.total_supply hs).0;
      owned = (read_owned-ok s p.bpt_balance ho).0;
      positive = (read_supply-ok p.total_supply hs).1;
      share = (read_owned-ok s p.bpt_balance ho).1;
      base = refl;
      outcome = refl;
      paid_on_true = λ e. ground arith;
      paid_on_false = λ e. ground arith;
      binary = ground (arith, throw_if-ok _ _ side);
    })

-- The owner of the whole supply takes the balances whole, and nobody takes more than is there.
pub settlement_inventory_bounds :
    (p : Pool) (i : Inventory)
    → settlement_inventory p ≡ ok i
    → (b c : ℕ) × (split_pair p.collateral p.tokens p.balances ≡ ok (b, c))
      × (i.base_inventory ≤ b)
      × (i.outcome_inventory ≤ c)
      × (i.bpt_balance ≡ i.total_supply → (i.base_inventory ≡ b) × (i.outcome_inventory ≡ c))
      × (i.true_payout + i.false_payout ≡ 2 * i.base_inventory + i.outcome_inventory)
settlement_inventory_bounds p i h =
    let v = settlement_inventory-IsInventory p i h in
    (
      v.base_balance,
      v.outcome_balance,
      v.found,
      omega (arith, v.base, part-le v.base_balance i.bpt_balance i.total_supply v.positive v.share),
      omega (
        arith,
        v.outcome,
        part-le v.outcome_balance i.bpt_balance i.total_supply v.positive v.share,
      ),
      (λ e. (
        whole v.base_balance e v.base v.positive,
        whole v.outcome_balance e v.outcome v.positive,
      )),
      paid v,
    )
  where
    whole :
        (x : ℕ) {y : ℕ}
        → i.bpt_balance ≡ i.total_supply
        → y ≡ part x i.bpt_balance i.total_supply
        → 0 < i.total_supply
        → y ≡ x
    whole x e f h = f ∙ ap (λ o. part x o i.total_supply) e ∙ part_whole x i.total_supply h

    paid :
        IsInventory p i
        → i.true_payout + i.false_payout ≡ 2 * i.base_inventory + i.outcome_inventory
    paid v = elim (ℕ_discrete p.side 0) [
      | yes e ↦ omega (arith, v.paid_on_true e)
      | no n ↦ omega (arith, v.paid_on_false (omega (arith, v.binary)))
    ]

-- A pool whose shares another owner holds.
abbrev pub held_by : Pool → ℕ → Pool
held_by p a = record p { bpt_balance = pos a }

part_split :
    (x a b s : ℕ)
    → 0 < s
    → (part x a s + part x b s ≤ part x (a + b) s)
      × (part x (a + b) s ≤ part x a s + part x b s + 1)
part_split x a b s h =
    subst (λ n. (part x a s + part x b s ≤ n / s) × (n / s ≤ part x a s + part x b s + 1))
      (omega arith) (floor_split (x * a) (x * b) s h)

-- The owners of one pool take parts of the same balances and the same supply.
common :
    (p : Pool) (a c : ℕ) (i k : Inventory)
    → (u : IsInventory (held_by p a) i) → (w : IsInventory (held_by p c) k)
    → (i.base_inventory ≡ part w.base_balance a k.total_supply)
      × (i.outcome_inventory ≡ part w.outcome_balance a k.total_supply)
common p a c i k u w = (
  cc (u.base, u.found, w.found, u.supply, w.supply, u.owned),
  cc (u.outcome, u.found, w.found, u.supply, w.supply, u.owned),
)

-- Two owners of the same pool are never paid more, in either case, than one who holds both their shares,
-- and less by at most a unit of each token.
pub settlement_inventory_split :
    (p : Pool) (a b : ℕ) (i j k : Inventory)
    → settlement_inventory (held_by p a) ≡ ok i
    → settlement_inventory (held_by p b) ≡ ok j
    → settlement_inventory (held_by p (a + b)) ≡ ok k
    → (i.true_payout + j.true_payout ≤ k.true_payout)
      × (k.true_payout ≤ i.true_payout + j.true_payout + 2)
      × (i.false_payout + j.false_payout ≤ k.false_payout)
      × (k.false_payout ≤ i.false_payout + j.false_payout + 2)
settlement_inventory_split p a b i j k hi hj hk =
    let u = settlement_inventory-IsInventory (held_by p a) i hi in
    let v = settlement_inventory-IsInventory (held_by p b) j hj in
    let w = settlement_inventory-IsInventory (held_by p (a + b)) k hk in
    let base = part_split w.base_balance a b k.total_supply w.positive in
    let outcome = part_split w.outcome_balance a b k.total_supply w.positive in
    let ci = common p a (a + b) i k u w in
    let cj = common p b (a + b) j k v w in
    let ck = common p (a + b) (a + b) k k w w in
    elim (ℕ_discrete p.side 0) [
      | yes e ↦ omega (arith, u.paid_on_true e, v.paid_on_true e, w.paid_on_true e)
      | no n ↦
          let e : p.side ≡ 1 = omega (arith, w.binary) in
          omega (arith, u.paid_on_false e, v.paid_on_false e, w.paid_on_false e)
    ]

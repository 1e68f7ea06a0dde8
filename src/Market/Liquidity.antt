-- ===== src/Market/Liquidity.antt =====
-- implementations/vault/sdk/liquidity.mjs: the limits of a quote, and its check before use.
use native.Mathlib.Nat.{mul-le-mul_left, sub-le}
use oncm.Prelude.{
  ℕ, ◌+◌, ◌-◌, ◌*◌, ◌/◌, ◌≤◌, ◌<◌, ◌≡◌, refl, ap, Bool, true, false, Option, none, some, List, [],
  ◌∷◌, length, any, not, ◌||◌, ltb, ◌==◌, if◌then◌else◌, Result, ok, throw, ◌>>=◌, ◌>>◌, throw_if,
  throw_if-ok, is_yes, is_yes-sound, >>=-eq-ok, ok-injective, subst, arith, All,
}
use mathlib.Core.Logic.{◌≢◌}
use oncm.Prelude.Int.{ℤ, pos, negsuc, is_negative}

pub data Kind : Type 0 where
  join exit initialize : Kind

pub data Error : Type 0 where
  bad_slippage negative_amount other_operation token_order amounts_changed bad_minimum bpt_changed
        bad_limits :
      Error

-- an integer number from 0 to 10000
unfoldable pub slippage : Option ℤ → Result Error ℕ
slippage none = throw bad_slippage
slippage (some (negsuc n)) = throw bad_slippage
slippage (some (pos n)) = if ltb 10000 n then throw bad_slippage else ok n

-- the most to pay in, rounded up, or the least to take out, rounded down
unfoldable pub limit_of : Kind → ℕ → ℕ → ℕ
limit_of join bps n = (n * (10000 + bps) + 9999) / 10000
limit_of _ bps n = n * (10000 - bps) / 10000

-- the `map` of `liquidityLimits`
unfoldable pub limits_from : Kind → ℕ → List ℤ → Result Error (List ℕ)
unfolding limit_of
limits_from kind bps [] = ok []
limits_from kind bps (negsuc n ∷ amounts) = throw negative_amount
limits_from kind bps (pos n ∷ amounts) = do
  rest ← limits_from kind bps amounts
  ok (limit_of kind bps n ∷ rest)

unfoldable pub liquidity_limits : List ℤ → Option ℤ → Kind → Result Error (List ℕ)
unfolding slippage limits_from
liquidity_limits amounts bps kind = do b ← slippage bps; limits_from kind b amounts

-- The limit of an amount: with the slippage b added and rounded up to join, or taken off and
-- rounded down to leave.
abbrev pub IsLimit : Kind → ℕ → ℕ → ℕ → Type 0
IsLimit join b n l = (n * (10000 + b) ≤ l * 10000) × (l * 10000 < n * (10000 + b) + 10000) × (n ≤ l)
IsLimit _ b n l = (l * 10000 ≤ n * (10000 - b)) × (n * (10000 - b) < l * 10000 + 10000) × (l ≤ n)

abbrev pub AreLimits : Kind → ℕ → List ℤ → List ℕ → Type 0
AreLimits kind b [] [] = Unit
AreLimits kind b (pos n ∷ as') (l ∷ ls) = IsLimit kind b n l × AreLimits kind b as' ls
AreLimits kind b _ _ = ⊥

part-le : (n b : ℕ) → n * (10000 - b) ≤ n * 10000
part-le n b = mul-le-mul_left n (sub-le 10000 b)

limit_of-IsLimit : (kind : Kind) (b n : ℕ) → b ≤ 10000 → IsLimit kind b n (limit_of kind b n)
unfolding limit_of
limit_of-IsLimit join b n h = (omega arith, omega arith, omega arith)
limit_of-IsLimit _ b n h = (omega arith, omega arith, omega (arith, part-le n b))

limits_from-AreLimits :
    (kind : Kind) (b : ℕ) (amounts : List ℤ) (ls : List ℕ)
    → b ≤ 10000
    → limits_from kind b amounts ≡ ok ls
    → AreLimits kind b amounts ls
unfolding limits_from
limits_from-AreLimits kind b [] ls r h = subst (AreLimits kind b []) (ok-injective h) tt
limits_from-AreLimits kind b (negsuc n ∷ amounts) ls r h = cc
limits_from-AreLimits kind b (pos n ∷ amounts) ls r h =
    let (rest, e, h1) = >>=-eq-ok (limits_from kind b amounts) _ h in
    subst (AreLimits kind b (pos n ∷ amounts)) (ok-injective h1)
      (limit_of-IsLimit kind b n r, limits_from-AreLimits kind b amounts rest r e)

-- Limits that are returned belong to the amounts, one for one, for a slippage of at most 10000 basis
-- points: to join, no limit is below its amount and each is the exact bound rounded up; to leave, none is above
-- its amount and each is the exact bound rounded down.
pub liquidity_limits-AreLimits :
    (amounts : List ℤ) (bps : Option ℤ) (kind : Kind) (ls : List ℕ)
    → liquidity_limits amounts bps kind ≡ ok ls
    → (b : ℕ) × (bps ≡ some (pos b)) × (b ≤ 10000) × AreLimits kind b amounts ls
unfolding liquidity_limits
liquidity_limits-AreLimits amounts none kind ls h = cc
liquidity_limits-AreLimits amounts (some (negsuc b)) kind ls h = cc
liquidity_limits-AreLimits amounts (some (pos b)) kind ls h =
    let (c, e, h1) = >>=-eq-ok (slippage (some (pos b))) _ h in
    let same : (b ≡ c) × (b ≤ 10000) = ground arith in
    (b, refl, same.1, limits_from-AreLimits kind b amounts ls same.1 (rw same.0 h1))

pub record Quote : Type 0 where
  pub kind : Kind
  pub pool : ℕ
  pub account : ℕ
  pub tokens : List ℕ
  pub amounts : List ℤ
  pub minimum_bpt : ℤ
  pub bpt : ℤ
  pub limits : List ℤ

-- What the operation at hand is, against which a quote is checked.
pub record Operation : Type 0 where
  pub kind : Kind
  pub pool : ℕ
  pub account : ℕ
  pub tokens : List ℕ
  pub amounts : List ℤ
  pub bpt : ℤ

pub Kind-discrete : Discrete Kind
Kind-discrete = hlevel

abbrev pub eq_ℤ : ℤ → ℤ → Bool
eq_ℤ (pos a) (pos b) = a == b
eq_ℤ (negsuc a) (negsuc b) = a == b
eq_ℤ _ _ = false

-- `xs.some((x, i) => !eq(x, ys[i]))`, where an element that is missing differs
abbrev pub some_differs : {A : Type 0} → (A → A → Bool) → List A → List A → Bool
some_differs eq [] ys = false
some_differs eq (x ∷ xs) [] = true
some_differs eq (x ∷ xs) (y ∷ ys) = not (eq x y) || some_differs eq xs ys

-- `x <= 0n`
abbrev pub is_positive : ℤ → Bool
is_positive (pos n) = ltb 0 n
is_positive (negsuc n) = false

-- the amounts of an initialization, or the BPT of a join or an exit
unfoldable pub check_amounts : Quote → Operation → Result Error (Unit {0})
check_amounts q o = elim o.kind [
  | initialize ↦ do
    throw_if (not (length q.amounts == length o.amounts) || some_differs eq_ℤ o.amounts q.amounts)
        amounts_changed
    throw_if (is_negative q.minimum_bpt) bad_minimum
  | _ ↦ throw_if (not (eq_ℤ q.bpt o.bpt) || not (is_positive o.bpt)) bpt_changed
]

unfoldable pub validate_liquidity_quote : Option Quote → Operation → Result Error Quote
unfolding check_amounts Kind-discrete
validate_liquidity_quote none o = throw other_operation
validate_liquidity_quote (some q) o = do
  throw_if
      (not (is_yes (Kind-discrete q.kind o.kind))
        || not (q.pool == o.pool)
        || not (q.account == o.account))
      other_operation
  throw_if (not (length q.tokens == length o.tokens) || some_differs ◌==◌ o.tokens q.tokens)
      token_order
  check_amounts q o
  throw_if (not (length q.limits == length o.tokens) || any is_negative q.limits) bad_limits
  ok q

-- A quote fits an operation.
pub record Fits (q : Quote) (o : Operation) : Type 0 where
  pub same_kind : q.kind ≡ o.kind
  pub same_pool : q.pool ≡ o.pool
  pub same_account : q.account ≡ o.account
  pub same_tokens : q.tokens ≡ o.tokens
  pub same_amounts : o.kind ≡ initialize → q.amounts ≡ o.amounts
  pub same_bpt : o.kind ≢ initialize → (q.bpt ≡ o.bpt) × (is_positive o.bpt ≡ true)
  pub limits_count : length q.limits ≡ length o.tokens
  pub limits_unsigned : All (λ l. is_negative l ≡ false) q.limits

same-list :
    {A : Type 0} (eq : A → A → Bool)
    → ((a b : A) → eq a b ≡ true → a ≡ b)
    → (xs ys : List A) → length ys ≡ length xs
    → some_differs eq xs ys ≡ false
    → ys ≡ xs
same-list eq sound [] [] l h = refl
same-list eq sound [] (y ∷ ys) l h = absurd (omega arith)
same-list eq sound (x ∷ xs) [] l h = cc
same-list eq sound (x ∷ xs) (y ∷ ys) l h = ground (arith, sound x y, same-list eq sound xs ys)

none_negative : (ls : List ℤ) → any is_negative ls ≡ false → All (λ l. is_negative l ≡ false) ls
none_negative [] h = tt
none_negative (l ∷ ls) h = ground (arith, none_negative ls)

eq_ℤ-sound : (a b : ℤ) → eq_ℤ a b ≡ true → a ≡ b
eq_ℤ-sound (pos a) (pos b) h = ground arith
eq_ℤ-sound (negsuc a) (negsuc b) h = ground arith
eq_ℤ-sound (pos a) (negsuc b) h = cc
eq_ℤ-sound (negsuc a) (pos b) h = cc

eq_ℕ-sound : (a b : ℕ) → (a == b) ≡ true → a ≡ b
eq_ℕ-sound a b h = ground arith

decided : (a b : Kind) → is_yes (Kind-discrete a b) ≡ true → a ≡ b
decided a b h = is_yes-sound (Kind-discrete a b) h

check_amounts-ok :
    (q : Quote) (o : Operation) {u : Unit {0}}
    → check_amounts q o ≡ ok u
    → (o.kind ≡ initialize → q.amounts ≡ o.amounts)
      × (o.kind ≢ initialize → (q.bpt ≡ o.bpt) × (is_positive o.bpt ≡ true))
unfolding check_amounts
check_amounts-ok q o h = (
  λ e. ground (arith, same-list eq_ℤ eq_ℤ-sound o.amounts q.amounts),
  λ n. (ground (arith, eq_ℤ-sound q.bpt o.bpt), ground arith),
)

-- A quote that passes the check is returned as it is, and fits the operation: its kind, pool,
-- wallet and tokens, its amounts where a pool is initialized and its positive BPT where not, and
-- it has one limit for each token, none negative.
pub validate_liquidity_quote-Fits :
    (quote : Option Quote) (o : Operation) (q : Quote)
    → validate_liquidity_quote quote o ≡ ok q
    → (quote ≡ some q) × Fits q o
unfolding validate_liquidity_quote
validate_liquidity_quote-Fits none o q h = cc
validate_liquidity_quote-Fits (some r) o q h =
    let (_, same, h1) =
      >>=-eq-ok
        (throw_if
          (not (is_yes (Kind-discrete r.kind o.kind))
            || not (r.pool == o.pool)
            || not (r.account == o.account))
          _)
        _ h in
    let (_, tokens, h2) =
      >>=-eq-ok
        (throw_if (not (length r.tokens == length o.tokens) || some_differs ◌==◌ o.tokens r.tokens)
          _)
        _ h1 in
    let (_, amounts, h3) = >>=-eq-ok (check_amounts r o) _ h2 in
    let (_, limits, h4) =
      >>=-eq-ok (throw_if (not (length r.limits == length o.tokens) || any is_negative r.limits) _)
        _ h3 in
    (
      ap some (ok-injective h4),
      subst (λ (x : Quote). Fits x o) (ok-injective h4)
          (record {
            same_kind = decided r.kind o.kind (ground (arith, throw_if-ok _ _ same));
            same_pool = ground (arith, throw_if-ok _ _ same);
            same_account = ground (arith, throw_if-ok _ _ same);
            same_tokens =
                same-list ◌==◌ eq_ℕ-sound o.tokens r.tokens (ground (arith, throw_if-ok _ _ tokens))
                  (ground (arith, throw_if-ok _ _ tokens));
            same_amounts = (check_amounts-ok r o amounts).0;
            same_bpt = (check_amounts-ok r o amounts).1;
            limits_count = ground (arith, throw_if-ok _ _ limits);
            limits_unsigned = none_negative r.limits (ground (arith, throw_if-ok _ _ limits));
          }),
    )

-- ===== src/Market/SwapLimits.antt =====
-- implementations/vault/sdk/swap-limits.mjs. What a swap does outside is the list of its effects.
use oncm.Prelude.{
  ℕ, ◌+◌, ◌-◌, ◌*◌, ◌/◌, ◌^◌, ◌≤◌, ◌<◌, ◌≡◌, refl, ◌⊎◌, inl, inr, Bool, Option, none, some, List,
  [], ◌∷◌, ◌++◌, ltb, leb, ◌==◌, if◌then◌else◌, Result, ok, throw, ◌>>=◌, ◌>>◌, throw_if, >>=-eq-ok,
  arith, ap, sym, ◌∙◌, Result-cases,
}
use oncm.Prelude.Int.{ℤ, pos, negsuc}

pub data Error : Type 0 where
  outside_uint256 bad_slippage not_positive quote_expired approval_failed : Error

abbrev pub uint256_max : ℕ
uint256_max = 2 ^ 256 - 1

unfoldable pub uint : ℤ → Result Error ℕ
uint (negsuc n) = throw outside_uint256
uint (pos n) = if ltb uint256_max n then throw outside_uint256 else ok n

-- an integer number from 0 to 10000
unfoldable pub slippage : Option ℤ → Result Error ℕ
slippage none = throw bad_slippage
slippage (some (negsuc n)) = throw bad_slippage
slippage (some (pos n)) = if ltb 10000 n then throw bad_slippage else ok n

pub record Limits : Type 0 where
  pub minimum_amount_out : ℕ
  pub deadline : ℕ

unfoldable pub quoted_swap_limits : ℤ → Option ℤ → ℤ → Result Error Limits
unfolding uint slippage
quoted_swap_limits output slippage_bps timestamp = do
  bps ← slippage slippage_bps
  out ← uint output
  now ← uint timestamp
  ok (record { minimum_amount_out = out * (10000 - bps) / 10000; deadline = now + 600 })

pub record Order : Type 0 where
  pub amount : ℕ
  pub limits : Limits

pub data Effect : Type 0 where
  asked_now : Effect
  asked_quote : Effect
  approved : ℕ → Effect
  executed : Order → Effect

-- What the callbacks of a swap answer: the clock, the quote, and whether the approval went through.
pub record World : Type 0 where
  pub now : ℤ
  pub quote : ℤ
  pub approves : Bool

pub record Swap : Type 0 where
  pub amount : ℤ
  pub slippage_bps : Option ℤ
  pub limits : Option (ℤ × ℤ)

-- the limits that the swap is bound to, and whether a quote was asked for
unfoldable pub fix_limits : World → Swap → ℤ → Option (ℤ × ℤ) → List Effect × Result Error Limits
unfolding uint quoted_swap_limits
fix_limits w s timestamp (some (least, deadline)) =
    ([], do m ← uint least; d ← uint deadline; ok (record { minimum_amount_out = m; deadline = d }))
fix_limits w s timestamp none =
    (asked_quote ∷ [], quoted_swap_limits w.quote s.slippage_bps timestamp)

-- from the test of the deadline on
unfoldable pub finish_swap : World → ℕ → ℕ → Result Error Limits → List Effect × Result Error Order
finish_swap w input timestamp (throw e) = ([], throw e)
finish_swap w input timestamp (ok fixed) =
    if leb fixed.deadline timestamp
    then ([], throw quote_expired)
    else if w.approves
    then (
      approved input ∷ executed (record { amount = input; limits = fixed }) ∷ [],
      ok (record { amount = input; limits = fixed }),
    )
    else (approved input ∷ [], throw approval_failed)

unfoldable pub positive_uint : ℤ → Result Error ℕ
unfolding uint
positive_uint a = do n ← uint a; throw_if (n == 0) not_positive; ok n

unfoldable pub execute_bounded_swap : World → Swap → List Effect × Result Error Order
unfolding uint positive_uint fix_limits finish_swap
execute_bounded_swap w s = elim (positive_uint s.amount) [
  | throw e ↦ ([], throw e)
  | ok input ↦ elim (uint w.now) [
    | throw e ↦ (asked_now ∷ [], throw e)
    | ok timestamp ↦
        let (asked, fixed) = fix_limits w s w.now s.limits in
        let (done, r) = finish_swap w input timestamp fixed in (asked_now ∷ asked ++ done, r)
  ]
]

-- The limits that an order has to carry: those given, or those of the quote, rounded down.
abbrev pub Bound : World → Swap → Option (ℤ × ℤ) → Limits → Type 0
Bound w s (some (least, deadline)) l =
    (pos l.minimum_amount_out ≡ least) × (pos l.deadline ≡ deadline)
Bound w s none l =
    (q t bps : ℕ) × (w.quote ≡ pos q)
    × (w.now ≡ pos t)
    × (s.slippage_bps ≡ some (pos bps))
    × (bps ≤ 10000)
    × (l.minimum_amount_out * 10000 ≤ q * (10000 - bps))
    × (q * (10000 - bps) < (l.minimum_amount_out + 1) * 10000)
    × (l.deadline ≡ t + 600)

-- what is asked for before the limits are fixed
abbrev pub asks : Option (ℤ × ℤ) → List Effect
asks none = asked_now ∷ asked_quote ∷ []
asks (some _) = asked_now ∷ []

uint-ok : (a : ℤ) {n : ℕ} → uint a ≡ ok n → a ≡ pos n
unfolding uint
uint-ok (pos a) h = ground arith
uint-ok (negsuc a) h = cc

slippage-ok : (a : Option ℤ) {n : ℕ} → slippage a ≡ ok n → (a ≡ some (pos n)) × (n ≤ 10000)
unfolding slippage
slippage-ok none h = cc
slippage-ok (some (negsuc a)) h = cc
slippage-ok (some (pos a)) h = ground arith

quoted-Bound :
    (w : World) (s : Swap) {l : Limits}
    → quoted_swap_limits w.quote s.slippage_bps w.now ≡ ok l
    → Bound w s none l
unfolding quoted_swap_limits
quoted-Bound w s {l} h =
    let (bps, hb, h1) = >>=-eq-ok (slippage s.slippage_bps) _ h in
    let (q, hq, h2) = >>=-eq-ok (uint w.quote) _ h1 in
    let (t, ht, h3) = >>=-eq-ok (uint w.now) _ h2 in
    let (named, range) = slippage-ok s.slippage_bps hb in
    let m : l.minimum_amount_out ≡ q * (10000 - bps) / 10000 = ground arith in
    (
      q,
      t,
      bps,
      uint-ok w.quote hq,
      uint-ok w.now ht,
      named,
      range,
      omega arith,
      omega arith,
      ground arith,
    )

pub fix_limits-Bound :
    (w : World) (s : Swap) (given : Option (ℤ × ℤ)) {l : Limits}
    → (fix_limits w s w.now given).1 ≡ ok l
    → Bound w s given l
unfolding fix_limits
fix_limits-Bound w s none h = quoted-Bound w s h
fix_limits-Bound w s (some (least, deadline)) {l} h =
    let (m, hm, h1) = >>=-eq-ok (uint least) _ h in
    let (d, hd, h2) = >>=-eq-ok (uint deadline) _ h1 in
    ground (arith, uint-ok least hm, uint-ok deadline hd)

fix_limits-asks :
    (w : World) (s : Swap) (given : Option (ℤ × ℤ)) (es : List Effect)
    → asked_now ∷ (fix_limits w s w.now given).0 ++ es ≡ asks given ++ es
unfolding fix_limits
fix_limits-asks w s none es = refl
fix_limits-asks w s (some _) es = refl

finish_swap-ok :
    (w : World) (input timestamp : ℕ) (r : Result Error Limits) (o : Order)
    → (finish_swap w input timestamp r).1 ≡ ok o
    → (r ≡ ok o.limits)
      × (o.amount ≡ input)
      × (timestamp < o.limits.deadline)
      × ((finish_swap w input timestamp r).0 ≡ approved o.amount ∷ executed o ∷ [])
unfolding finish_swap
finish_swap-ok w input timestamp (throw e) o h = cc
finish_swap-ok w input timestamp (ok l) o h = ground arith

pub positive_uint-ok : (a : ℤ) {n : ℕ} → positive_uint a ≡ ok n → (a ≡ pos n) × (0 < n)
unfolding positive_uint uint
positive_uint-ok (pos a) h = ground arith
positive_uint-ok (negsuc a) h = cc

swap_no_amount :
    (w : World) (s : Swap) {e : Error}
    → positive_uint s.amount ≡ throw e
    → execute_bounded_swap w s ≡ ([], throw e)
unfolding execute_bounded_swap
swap_no_amount w s p = rw (p, execute_bounded_swap)

swap_no_clock :
    (w : World) (s : Swap) {n : ℕ} {e : Error}
    → positive_uint s.amount ≡ ok n
    → uint w.now ≡ throw e
    → execute_bounded_swap w s ≡ (asked_now ∷ [], throw e)
unfolding execute_bounded_swap
swap_no_clock w s p q = rw (p, execute_bounded_swap, q)

-- With the amount and the clock read, the limits are fixed and the swap is finished.
swap_clocked :
    (w : World) (s : Swap) {n t : ℕ}
    → positive_uint s.amount ≡ ok n
    → uint w.now ≡ ok t
    → execute_bounded_swap w s ≡ (
      asked_now ∷ (fix_limits w s w.now s.limits).0
          ++ (finish_swap w n t (fix_limits w s w.now s.limits).1).0,
      (finish_swap w n t (fix_limits w s w.now s.limits).1).1,
    )
unfolding execute_bounded_swap
swap_clocked w s p q = rw (p, execute_bounded_swap, q)

-- A swap that goes through approves and executes its own positive amount, once each and in that
-- order, after the clock and the quote; the order carries the limits given, or the quote's
-- with the slippage taken off and 600 seconds, and its deadline is after the clock's time.
pub execute_bounded_swap-ok :
    (w : World) (s : Swap) (o : Order)
    → (execute_bounded_swap w s).1 ≡ ok o
    → ((execute_bounded_swap w s).0 ≡ asks s.limits ++ approved o.amount ∷ executed o ∷ [])
      × (s.amount ≡ pos o.amount)
      × (0 < o.amount)
      × ((t : ℕ) × (w.now ≡ pos t) × (t < o.limits.deadline))
      × Bound w s s.limits o.limits
execute_bounded_swap-ok w s o h = elim (Result-cases (positive_uint s.amount)) [
  | inl (e, bad) ↦ cc (ap (λ (p : List Effect × Result Error Order). p.1) (swap_no_amount w s bad))
  | inr (input, amount) ↦ elim (Result-cases (uint w.now)) [
    | inl (e, bad) ↦
        cc (ap (λ (p : List Effect × Result Error Order). p.1) (swap_no_clock w s amount bad))
    | inr (t, clock) ↦
        let eq = swap_clocked w s amount clock in
        let (fixed, same, after, done) =
          finish_swap-ok w input t _ o
            (sym (ap (λ (p : List Effect × Result Error Order). p.1) eq) ∙ h) in
        rw (eq, done)
          (
            fix_limits-asks w s s.limits _,
            ground (arith, positive_uint-ok s.amount amount),
            ground (arith, positive_uint-ok s.amount amount),
            (t, uint-ok w.now clock, after),
            fix_limits-Bound w s s.limits fixed,
          )
  ]
]

abbrev pub NeverExecuted : List Effect → Type 0
NeverExecuted [] = Unit
NeverExecuted (executed o ∷ es) = ⊥
NeverExecuted (_ ∷ es) = NeverExecuted es

abbrev pub NeverApproved : List Effect → Type 0
NeverApproved [] = Unit
NeverApproved (approved n ∷ es) = ⊥
NeverApproved (_ ∷ es) = NeverApproved es

abbrev Failed : List Effect → Error → Type 0
Failed es e = NeverExecuted es × ((e ≡ approval_failed) ⊎ NeverApproved es)

finish_swap-Failed :
    (w : World) (input timestamp : ℕ) (r : Result Error Limits) (e : Error)
    → (finish_swap w input timestamp r).1 ≡ throw e
    → Failed (finish_swap w input timestamp r).0 e
unfolding finish_swap
finish_swap-Failed w input timestamp (throw d) e h = (tt, inr tt)
finish_swap-Failed w input timestamp (ok l) e h = ground arith

asked-Failed :
    (w : World) (s : Swap) (given : Option (ℤ × ℤ)) (es : List Effect) (e : Error)
    → Failed es e
    → Failed (asked_now ∷ (fix_limits w s w.now given).0 ++ es) e
unfolding fix_limits
asked-Failed w s none es e h = h
asked-Failed w s (some _) es e h = h

-- A swap that fails executes nothing, and it has approved nothing unless it is the approval that failed.
pub execute_bounded_swap-throw :
    (w : World) (s : Swap) (e : Error)
    → (execute_bounded_swap w s).1 ≡ throw e
    → NeverExecuted (execute_bounded_swap w s).0
      × ((e ≡ approval_failed) ⊎ NeverApproved (execute_bounded_swap w s).0)
execute_bounded_swap-throw w s e h = elim (Result-cases (positive_uint s.amount)) [
  | inl (_, bad) ↦ rw (swap_no_amount w s bad) (tt, inr tt)
  | inr (input, amount) ↦ elim (Result-cases (uint w.now)) [
    | inl (_, bad) ↦ rw (swap_no_clock w s amount bad) (tt, inr tt)
    | inr (t, clock) ↦
        let eq = swap_clocked w s amount clock in
        rw eq (
          asked-Failed w s s.limits _ e (
            finish_swap-Failed w input t _ e
              (sym (ap (λ (p : List Effect × Result Error Order). p.1) eq) ∙ h)))
  ]
]

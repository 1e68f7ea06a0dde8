-- ===== src/RateLimit/Interval.antt =====
-- rpc-gateway.mjs, `createWindowLimiter`: what the limiter lets through for one key in an interval.
use oncm.Prelude.{
  ℕ, ◌+◌, ◌*◌, ◌≤◌, ◌<◌, ◌≡◌, refl, ◌≢◌, ◌⊎◌, List, [], ◌∷◌, Option, none, some, All, arith, length,
  Option-cases, Bool-cases, inl, inr, if_pos, if_neg, leb, ltb,
}
use oncm.Prelude.Keyed.{get, put, retain, IsMap, get-retain, get-put}
use oncm.RateLimit.{Bucket, Limits, Call, is_live, charge, admit_live, admit, amount, granted}
use oncm.RateLimit.Bounds.{IsValid, admit-IsValid, fresh}

module _ {K : Type 0} (dec : Discrete K) (l : Limits) (k : K) where
  -- What a call can do to the bucket of `k`, by the bucket that it finds live.
  abbrev Charged : Call K → Option Bucket → ℕ → Option Bucket → Type 0
  Charged c none g r =
      ((r ≡ none) × (g ≡ 0))
      ⊎ ((b : Bucket) × (r ≡ some b)
          × (b.until ≡ c.time + l.window_ms)
          × (b.used ≡ g)
          × (g ≤ l.limit))
  Charged c (some b) g r =
      (b' : Bucket) × (r ≡ some b')
      × (b'.until ≡ b.until)
      × (b'.used ≡ b.used + g)
      × (b'.used ≤ l.limit)

  abbrev Within : Option Bucket → Type 0
  Within none = Unit {0}
  Within (some b) = b.used ≤ l.limit

  -- Charging a bucket within the limit keeps its end, and adds what is let through.
  charge_hit :
      (c : Call K) (b : Bucket) (seen : List (K × Bucket))
      → b.used ≤ l.limit
      → c.key ≡ k
      → get dec k seen ≡ some b
      → Charged c
          (some b)
          (amount dec l k c (charge dec l c.key c.cost b seen).1)
          (get dec k (charge dec l c.key c.cost b seen).0)
  unfolding charge
  charge_hit c b seen h e f = elim (Bool-cases (ltb l.limit (b.used + c.cost))) [
    | inl over ↦ rw over (b, f, refl, omega arith, h)
    | inr fits ↦ rw fits (
      record b { used = b.used + c.cost },
      rw (get-put dec c.key k (record b { used = b.used + c.cost }) seen)
          (if_pos (dec c.key k) e _ _),
      refl,
      rw (if_pos (dec c.key k) e c.cost 0),
      ground arith,
    )
  ]

  charge_miss :
      (c : Call K) (b : Bucket) (seen : List (K × Bucket))
      → c.key ≢ k
      → (get dec k (charge dec l c.key c.cost b seen).0 ≡ get dec k seen)
        × (amount dec l k c (charge dec l c.key c.cost b seen).1 ≡ 0)
  unfolding charge
  charge_miss c b seen n = elim (Bool-cases (ltb l.limit (b.used + c.cost))) [
    | inl over ↦ rw over (refl, refl)
    | inr fits ↦ rw fits (
      rw (get-put dec c.key k (record b { used = b.used + c.cost }) seen)
          (if_neg (dec c.key k) n _ _),
      if_neg (dec c.key k) n c.cost 0,
    )
  ]

  Charged-miss : (c : Call K) (o : Option Bucket) → Within o → Charged c o 0 o
  Charged-miss c none h = inl (refl, refl)
  Charged-miss c (some b) h = (b, refl, refl, omega arith, h)

  get-put-fresh :
      (c : Call K) (seen : List (K × Bucket))
      → c.key ≡ k
      → get dec k (put dec c.key (fresh dec l c) seen) ≡ some (fresh dec l c)
  get-put-fresh c seen e =
      rw (get-put dec c.key k (fresh dec l c) seen) (if_pos (dec c.key k) e _ _)

  -- A bucket that the call itself opens.
  opened :
      (c : Call K) (g : ℕ) (r : Option Bucket)
      → Charged c (some (fresh dec l c)) g r
      → Charged c none g r
  opened c g r (b, found, ends, used, fits) = inr (b, found, ends, omega arith, omega arith)

  live_hit :
      (c : Call K) (seen : List (K × Bucket)) (o : Option Bucket)
      → get dec k seen ≡ o
      → Within o
      → c.key ≡ k
      → Charged c o
          (amount dec l k c (admit_live dec l c seen).1)
          (get dec k (admit_live dec l c seen).0)
  unfolding admit_live
  live_hit c seen none f h e = elim (Bool-cases (leb l.keys (length seen))) [
    | inl full ↦ rw (get_key, admit_live, full) (inl (f, refl))
    | inr room ↦
        rw (get_key, admit_live, room)
          (opened c _ _ (charge_hit c (fresh dec l c) _ (omega arith) e (get-put-fresh c seen e)))
  ]
    where
      get_key : get dec c.key seen ≡ none
      get_key = rw e f
  live_hit c seen (some b) f h e = rw (get_key, admit_live) (charge_hit c b seen h e f)
    where
      get_key : get dec c.key seen ≡ some b
      get_key = rw e f

  live_miss :
      (c : Call K) (seen : List (K × Bucket)) (o : Option Bucket)
      → get dec k seen ≡ o
      → Within o
      → c.key ≢ k
      → Charged c o
          (amount dec l k c (admit_live dec l c seen).1)
          (get dec k (admit_live dec l c seen).0)
  unfolding admit_live
  live_miss c seen o f h n = elim (Option-cases (get dec c.key seen)) [
    | inr (b, hit) ↦
        rw (hit, admit_live, (charge_miss c b seen n).0, (charge_miss c b seen n).1, f)
          (Charged-miss c o h)
    | inl none' ↦ elim (Bool-cases (leb l.keys (length seen))) [
      | inl full ↦ rw (none', admit_live, full, f) (Charged-miss c o h)
      | inr room ↦
          let seen' = put dec c.key (fresh dec l c) seen in
          let (same, free) = charge_miss c (fresh dec l c) seen' n in
          rw
            (
              none',
              admit_live,
              room,
              same,
              free,
              get-put dec c.key k (fresh dec l c) seen,
              if_neg (dec c.key k) n (some (fresh dec l c)) (get dec k seen),
              f,
            )
            (Charged-miss c o h)
    ]
  ]

  -- What one call of the limiter does to a key, and what it lets through for it.
  pub admit-Charged :
      (c : Call K) (seen : List (K × Bucket)) (o : Option Bucket)
      → get dec k (retain dec (is_live c.time) seen) ≡ o
      → Within o
      → Charged c o (amount dec l k c (admit dec l c seen).1) (get dec k (admit dec l c seen).0)
  unfolding admit
  admit-Charged c seen o f h = elim (dec c.key k) [
    | yes e ↦ live_hit c _ o f h e
    | no n ↦ live_miss c _ o f h n
  ]

  -- The clock shows times from `t` on, that never fall, all before `end`.
  abbrev pub Between : ℕ → ℕ → List (Call K) → Type 0
  Between t end [] = Unit
  Between t end (c ∷ cs) = (t ≤ c.time) × (c.time < end) × Between c.time end cs

  live_or_gone :
      (t : ℕ) (seen : List (K × Bucket)) (b : Bucket)
      → IsMap dec seen
      → get dec k seen ≡ some b
      → ((t < b.until) × (get dec k (retain dec (is_live t) seen) ≡ some b))
        ⊎ ((b.until ≤ t) × (get dec k (retain dec (is_live t) seen) ≡ none))
  live_or_gone t seen b m f = ground (arith, get-retain dec (is_live t) k seen m)

  stays_gone :
      (t : ℕ) (seen : List (K × Bucket))
      → IsMap dec seen
      → get dec k seen ≡ none
      → get dec k (retain dec (is_live t) seen) ≡ none
  stays_gone t seen m f = ground (arith, get-retain dec (is_live t) k seen m)

  -- While a bucket lives, it and what is let through stay within the limit.
  granted_live :
      (cs : List (Call K)) (t end : ℕ) (seen : List (K × Bucket)) (b : Bucket)
      → IsValid dec l seen
      → get dec k seen ≡ some b
      → b.used ≤ l.limit
      → end ≤ b.until
      → Between t end cs
      → granted dec l k cs seen + b.used ≤ l.limit
  unfolding granted
  granted_live [] t end seen b v f h e bt = omega arith
  granted_live (c ∷ cs) t end seen b v f h e bt = elim (live_or_gone c.time seen b v.distinct f) [
    | inl (_, live) ↦
        let (b', found, ends, used, fits) = admit-Charged c seen (some b) live h in
        omega (
          arith,
          granted_live cs c.time end (admit dec l c seen).0 b' (admit-IsValid dec l c seen v) found
              fits (omega arith) bt.2,
        )
    | inr (over, _) ↦ absurd (omega arith)
  ]

  -- A key that holds no bucket gets at most the limit in a window's time.
  granted_absent :
      (cs : List (Call K)) (t end : ℕ) (seen : List (K × Bucket))
      → IsValid dec l seen
      → end ≤ t + l.window_ms
      → get dec k seen ≡ none
      → Between t end cs
      → granted dec l k cs seen ≤ l.limit
  unfolding granted
  granted_absent [] t end seen v e f bt = omega arith
  granted_absent (c ∷ cs) t end seen v e f bt =
      elim (admit-Charged c seen none (stays_gone c.time seen v.distinct f) tt) [
        | inl (absent, free) ↦ omega (
          arith,
          granted_absent cs c.time end (admit dec l c seen).0 (admit-IsValid dec l c seen v)
              (omega arith) absent bt.2,
        )
        | inr (b, found, ends, used, fits) ↦ omega (
          arith,
          granted_live cs c.time end (admit dec l c seen).0 b (admit-IsValid dec l c seen v) found
              (omega arith) (omega arith) bt.2,
        )
      ]

  -- A bucket that is there may end inside the time: then one more is opened.
  granted_present :
      (cs : List (Call K)) (t end : ℕ) (seen : List (K × Bucket)) (b : Bucket)
      → IsValid dec l seen
      → end ≤ t + l.window_ms
      → get dec k seen ≡ some b
      → b.used ≤ l.limit
      → Between t end cs
      → granted dec l k cs seen + b.used ≤ 2 * l.limit
  unfolding granted
  granted_present [] t end seen b v e f h bt = omega arith
  granted_present (c ∷ cs) t end seen b v e f h bt =
      let v' = admit-IsValid dec l c seen v in
      let seen' = (admit dec l c seen).0 in
      elim (live_or_gone c.time seen b v.distinct f) [
        | inl (_, live) ↦
            let (b', found, ends, used, fits) = admit-Charged c seen (some b) live h in
            omega (arith, granted_present cs c.time end seen' b' v' (omega arith) found fits bt.2)
        | inr (_, gone) ↦ elim (admit-Charged c seen none gone tt) [
          | inl (absent, free) ↦
              omega (arith, granted_absent cs c.time end seen' v' (omega arith) absent bt.2)
          | inr (b', found, ends, used, fits) ↦
              omega (
                arith,
                granted_live cs c.time end seen' b' v' found (omega arith) (omega arith) bt.2,
              )
        ]
      ]

  used-le-limit :
      (seen : List (K × Bucket)) (b : Bucket)
      → All (λ e. e.1.used ≤ l.limit) seen
      → get dec k seen ≡ some b
      → b.used ≤ l.limit
  unfolding get
  used-le-limit [] b h f = cc
  used-le-limit ((j, w) ∷ seen) b h f = ground (arith, used-le-limit seen b h.1)

  -- From any valid buckets, and for calls whose times do not fall, the limiter lets through for one
  -- key at most twice the limit in any stretch of time as long as the window, and at most the limit
  -- if the key holds no bucket at its start.
  pub granted_interval :
      (cs : List (Call K)) (t end : ℕ) (seen : List (K × Bucket))
      → IsValid dec l seen
      → end ≤ t + l.window_ms
      → Between t end cs
      → (granted dec l k cs seen ≤ 2 * l.limit)
        × (get dec k seen ≡ none → granted dec l k cs seen ≤ l.limit)
  granted_interval cs t end seen v e bt =
      (anyway (get dec k seen) refl, λ f. granted_absent cs t end seen v e f bt)
    where
      anyway : (o : Option Bucket) → get dec k seen ≡ o → granted dec l k cs seen ≤ 2 * l.limit
      anyway none f = omega (arith, granted_absent cs t end seen v e f bt)
      anyway (some b) f =
          omega (arith, granted_present cs t end seen b v e f (used-le-limit seen b v.within f) bt)

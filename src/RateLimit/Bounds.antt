-- ===== src/RateLimit/Bounds.antt =====
-- rpc-gateway.mjs, `createWindowLimiter`: what holds of the buckets after any history.
use oncm.Prelude.{
  ℕ, ◌+◌, ◌≤◌, ◌≡◌, refl, List, [], ◌∷◌, some, All, All-keep, arith, length, length-keep-le,
  Option-cases, Bool-cases, leb, inl, inr, if_pos,
}
use oncm.Prelude.Keyed.{get, put, retain, IsMap, put-IsMap, retain-IsMap, get-put}
use oncm.RateLimit.{Bucket, Limits, Call, is_live, charge, admit_live, admit, after}

module _ {K : Type 0} (dec : Discrete K) (l : Limits) where
  -- The Map holds each key once, at most `keys` of them, and no bucket above the limit.
  pub record IsValid (seen : List (K × Bucket)) : Type 0 where
    pub distinct : IsMap dec seen
    pub room : length seen ≤ l.keys
    pub within : All (λ e. e.1.used ≤ l.limit) seen

  All-put :
      (key : K) (b : Bucket) (seen : List (K × Bucket))
      → b.used ≤ l.limit
      → All (λ e. e.1.used ≤ l.limit) seen
      → All (λ e. e.1.used ≤ l.limit) (put dec key b seen)
  unfolding put
  All-put key b [] h k = (h, tt)
  All-put key b ((j, w) ∷ seen) h k = ground (arith, All-put key b seen h k.1)

  length-put_hit :
      (key : K) (b c : Bucket) (seen : List (K × Bucket))
      → get dec key seen ≡ some c
      → length (put dec key b seen) ≡ length seen
  unfolding put get
  length-put_hit key b c [] h = cc
  length-put_hit key b c ((j, w) ∷ seen) h = ground (arith, length-put_hit key b c seen)

  pub length-put-le :
      (key : K) (b : Bucket) (seen : List (K × Bucket))
      → length (put dec key b seen) ≤ length seen + 1
  unfolding put
  length-put-le key b [] = omega arith
  length-put-le key b ((j, w) ∷ seen) = ground (arith, length-put-le key b seen)

  get-put_self :
      (key : K) (b : Bucket) (seen : List (K × Bucket)) → get dec key (put dec key b seen) ≡ some b
  get-put_self key b seen =
      rw (get-put dec key key b seen) (if_pos (dec key key) refl (some b) (get dec key seen))

  -- the bucket that a call opens
  abbrev pub fresh : Call K → Bucket
  fresh c = record { until = c.time + l.window_ms; used = 0 }

  charge-IsValid :
      (key : K) (cost : ℕ) (b : Bucket) (seen : List (K × Bucket))
      → IsValid seen
      → get dec key seen ≡ some b
      → IsValid (charge dec l key cost b seen).0
  unfolding charge
  charge-IsValid key cost b seen v h = ground (
    arith,
    v,
    put-IsMap dec key (record b { used = b.used + cost }) seen v.distinct,
    length-put_hit key (record b { used = b.used + cost }) b seen h,
    All-put key (record b { used = b.used + cost }) seen,
  )

  retain-IsValid :
      (t : ℕ) (seen : List (K × Bucket)) → IsValid seen → IsValid (retain dec (is_live t) seen)
  retain-IsValid t seen v = record {
    distinct = retain-IsMap dec (is_live t) seen v.distinct;
    room = omega (arith, v.room, length-keep-le (λ (e : K × Bucket). is_live t e.1) seen);
    within =
        All-keep (λ (e : K × Bucket). e.1.used ≤ l.limit) (λ (e : K × Bucket). is_live t e.1) seen
          v.within;
  }

  admit_live-IsValid :
      (c : Call K) (seen : List (K × Bucket)) → IsValid seen → IsValid (admit_live dec l c seen).0
  unfolding admit_live
  admit_live-IsValid c seen v = elim (Option-cases (get dec c.key seen)) [
    | inr (b, e) ↦ rw (e, admit_live) (charge-IsValid c.key c.cost b seen v e)
    | inl e ↦ elim (Bool-cases (leb l.keys (length seen))) [
      | inl full ↦ rw (e, admit_live, full) v
      | inr room ↦
          rw (e, admit_live, room)
            (charge-IsValid c.key c.cost (fresh c) (put dec c.key (fresh c) seen)
              (record {
                distinct = put-IsMap dec c.key (fresh c) seen v.distinct;
                room = ground (arith, length-put-le c.key (fresh c) seen);
                within = All-put c.key (fresh c) seen (omega arith) v.within;
              })
              (get-put_self c.key (fresh c) seen))
    ]
  ]

  -- Every call keeps the buckets valid.
  pub admit-IsValid :
      (c : Call K) (seen : List (K × Bucket)) → IsValid seen → IsValid (admit dec l c seen).0
  unfolding admit
  admit-IsValid c seen v = admit_live-IsValid c _ (retain-IsValid c.time seen v)

  -- After any history of calls, in whatever order the clock shows their times, the limiter holds
  -- at most `keys` buckets, one for a key, and none of them has been charged above the limit.
  pub after-IsValid :
      (cs : List (Call K)) (seen : List (K × Bucket)) → IsValid seen → IsValid (after dec l cs seen)
  unfolding after
  after-IsValid [] seen v = v
  after-IsValid (c ∷ cs) seen v = after-IsValid cs _ (admit-IsValid c seen v)

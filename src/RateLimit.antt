-- ===== src/RateLimit.antt =====
-- implementations/vault/server/rpc-gateway.mjs, `createWindowLimiter`: a fixed-window limiter.
-- `seen` is the Map of the buckets, keyed by clients; each call reads the clock once.
pub mod Bounds
pub mod Interval
mod Examples
use oncm.Prelude.{
  ℕ, ◌+◌, Bool, true, false, List, [], ◌∷◌, none, some, length, ltb, leb, if◌then◌else◌, not, ite,
}
use oncm.Prelude.Keyed.{get, put, retain}

pub record Bucket : Type 0 where
  pub until : ℕ
  pub used : ℕ

pub record Limits : Type 0 where
  pub limit : ℕ
  pub window_ms : ℕ
  pub keys : ℕ

-- One call of the limiter: what the clock shows, and the arguments `key` and `cost`.
pub record Call (K : Type 0) : Type 0 where
  pub time : ℕ
  pub key : K
  pub cost : ℕ

-- `v.until <= t` deletes
abbrev pub is_live : ℕ → Bucket → Bool
is_live t b = not (leb b.until t)

module _ {K : Type 0} (dec : Discrete K) (l : Limits) where
  -- the last line of the limiter, at the bucket that stands in the Map
  unfoldable pub charge : K → ℕ → Bucket → List (K × Bucket) → List (K × Bucket) × Bool
  charge key cost bucket seen =
      if ltb l.limit (bucket.used + cost)
      then (seen, false)
      else (put dec key (record bucket { used = bucket.used + cost }) seen, true)

  -- the bucket that `seen.get(key)` finds, or a new one where there is room
  unfoldable pub admit_live : Call K → List (K × Bucket) → List (K × Bucket) × Bool
  unfolding charge
  admit_live c seen = elim (get dec c.key seen) [
    | some bucket ↦ charge c.key c.cost bucket seen
    | none ↦
        let fresh : Bucket = record { until = c.time + l.window_ms; used = 0 } in
        if leb l.keys (length seen)
        then (seen, false)
        else charge c.key c.cost fresh (put dec c.key fresh seen)
  ]

  unfoldable pub admit : Call K → List (K × Bucket) → List (K × Bucket) × Bool
  unfolding admit_live
  admit c seen = admit_live c (retain dec (is_live c.time) seen)

  -- The cost of a call that was let through, if it is the key's.
  abbrev pub amount : K → Call K → Bool → ℕ
  amount k c passed = if passed then ite (dec c.key k) c.cost 0 else 0

  -- The cost that the limiter lets through for one key, over a list of calls.
  unfoldable pub granted : K → List (Call K) → List (K × Bucket) → ℕ
  granted k [] seen = 0
  granted k (c ∷ cs) seen =
      let (seen', passed) = admit c seen in amount k c passed + granted k cs seen'

  -- The buckets after a list of calls.
  unfoldable pub after : List (Call K) → List (K × Bucket) → List (K × Bucket)
  after [] seen = seen
  after (c ∷ cs) seen = after cs (admit c seen).0

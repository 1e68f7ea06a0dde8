-- ===== src/Gateway/Dispatch/Slots.antt =====
-- rpc-gateway.mjs, `dispatch`: what a request is answered before it has a slot, and how the slots are held and given back.
use oncm.Prelude.{
  ℕ, suc, ◌+◌, ◌-◌, ◌≤◌, ◌<◌, ◌≡◌, refl, inl, inr, Bool, true, false, Option, none, some, List,
  length, leb, if◌then◌else◌, String, String-discrete, Result, ok, throw, Bool-cases, arith,
}
use oncm.RateLimit.{Bucket, Limits, admit}
use oncm.Gateway.Json.{Json, obj, Error, member}
use oncm.Gateway.Params.{Library}
use oncm.Gateway.Envelope.{Envelope, validate_rpc_envelope}
use oncm.Gateway.Dispatch.{is_text}

-- `inflight` and the buckets of `rate`. The rest is not stored by the code: `running` counts the requests that have not been answered,
-- `waiting` those that were answered while their readiness was still being read.
pub record State : Type 0 where
  pub inflight : ℕ
  pub buckets : List (String × Bucket)
  pub running : ℕ
  pub waiting : ℕ

pub data Entry : Type 0 where
  rejected : Error → Entry
  unreadable busy : Entry
  entered : Envelope → Entry

abbrev pub rate_limits : ℕ → Limits
rate_limits per_minute = record { limit = per_minute; window_ms = 60000; keys = 1 }

-- `!Array.isArray(parsed)&&parsed?.method==='eth_sendRawTransaction'`
abbrev pub asks_to_write : Json → Bool
asks_to_write (obj fs) = is_text "eth_sendRawTransaction" (member "method" fs)
asks_to_write _ = false

-- `policy.inflight` and `policy.perMinute`
pub record Policy : Type 0 where
  pub most_inflight : ℕ
  pub per_minute : ℕ

-- A validated envelope takes a slot where one is free and the limiter lets its requests through.
unfoldable pub acquire : Policy → ℕ → Envelope → State → State × Entry
acquire p now e s =
    if leb p.most_inflight s.inflight
    then (s, busy)
    else (let passed =
          admit String-discrete (rate_limits p.per_minute)
            (record { time = now; key = "global"; cost = length e.calls }) s.buckets in
        if passed.1
        then (
          record {
            inflight = s.inflight + 1;
            buckets = passed.0;
            running = s.running + 1;
            waiting = s.waiting;
          },
          entered e,
        )
        else (
          record {
            inflight = s.inflight;
            buckets = passed.0;
            running = s.running;
            waiting = s.waiting;
          },
          busy,
        ))

-- `none` is a text that does not parse.
unfoldable pub dispatch : Library → Policy → ℕ → Option Json → State → State × Entry
unfolding acquire
dispatch lib p now none s = (s, unreadable)
dispatch lib p now (some input) s = elim (validate_rpc_envelope lib (asks_to_write input) input) [
  | throw e ↦ (s, rejected e)
  | ok envelope ↦ acquire p now envelope s
]

-- `finally`: the slot is given back, unless the readiness is still being read.
unfoldable pub leave : Bool → State → State
leave readiness_pending s =
    if readiness_pending
    then record {
      inflight = s.inflight;
      buckets = s.buckets;
      running = s.running - 1;
      waiting = s.waiting + 1;
    }
    else record {
      inflight = s.inflight - 1;
      buckets = s.buckets;
      running = s.running - 1;
      waiting = s.waiting;
    }

-- The readiness settles, either way.
unfoldable pub settle : State → State
settle s = record {
  inflight = s.inflight - 1;
  buckets = s.buckets;
  running = s.running;
  waiting = s.waiting - 1;
}

pub data Step (lib : Library) (p : Policy) (s : State) : State → Type 0 where
  dispatches : (now : ℕ) (input : Option Json) → Step lib p s (dispatch lib p now input s).0
  leaves : (readiness_pending : Bool) → 0 < s.running → Step lib p s (leave readiness_pending s)
  settles : 0 < s.waiting → Step lib p s (settle s)

-- A semaphore of a number of slots: what the gateway promises of the work that it has under way.
pub data SemaphoreStep (most : ℕ) : ℕ → ℕ → Type 0 where
  stays : (n : ℕ) → SemaphoreStep most n n
  takes : (n : ℕ) → n < most → SemaphoreStep most n (suc n)
  gives : (n : ℕ) → SemaphoreStep most (suc n) n

-- The work under way: requests that run, and readings that outlive their requests.
abbrev pub held : State → ℕ
held s = s.running + s.waiting

abbrev pub Sound : Policy → State → Type 0
Sound p s = (s.inflight ≡ held s) × (held s ≤ p.most_inflight)

step_to : (most m n k : ℕ) → SemaphoreStep most m n → n ≡ k → SemaphoreStep most m k
step_to most m n k s e = rw e at s

gives_one : (most n k : ℕ) → n ≡ suc k → SemaphoreStep most n k
gives_one most n k e = rw e (gives k)

acquire-Semaphore :
    (p : Policy) (now : ℕ) (e : Envelope) (s : State)
    → Sound p s
    → Sound p (acquire p now e s).0
      × SemaphoreStep p.most_inflight (held s) (held (acquire p now e s).0)
unfolding acquire
acquire-Semaphore p now e s (counted, within) = elim (Bool-cases (leb p.most_inflight s.inflight)) [
  | inl full ↦ rw (full, acquire) ((counted, within), stays (held s))
  | inr room ↦
      let free : s.inflight < p.most_inflight = ground arith in
      elim (Bool-cases
        (admit String-discrete (rate_limits p.per_minute)
          (record { time = now; key = "global"; cost = length e.calls }) s.buckets).1) [
            | inr spent ↦ rw (room, spent, acquire) ((counted, within), stays (held s))
            | inl passed ↦
                rw (room, passed, acquire)
                  (
                    (omega (arith, counted), omega (arith, counted, free)),
                    step_to p.most_inflight (held s) (suc (held s)) _
                        (takes (held s) (omega (arith, counted, free))) (omega arith),
                  )
          ]
]

-- Each step of the gateway is a step of the semaphore on the work that is under way, and the counter keeps to that work: a slot is taken
-- only where fewer than the most are held, and is given back once, when the answer is there and the readiness is not being read any more.
pub Step-Semaphore :
    (lib : Library) (p : Policy) {s t : State}
    → Step lib p s t
    → Sound p s
    → Sound p t × SemaphoreStep p.most_inflight (held s) (held t)
unfolding dispatch leave settle
Step-Semaphore lib p {s} (dispatches now none) v = (v, stays (held s))
Step-Semaphore lib p {s} (dispatches now (some input)) v =
    by_check (validate_rpc_envelope lib (asks_to_write input) input) refl
  where
    by_check :
        (r : Result Error Envelope)
        → validate_rpc_envelope lib (asks_to_write input) input ≡ r
        → Sound p (dispatch lib p now (some input) s).0
          × SemaphoreStep p.most_inflight (held s) (held (dispatch lib p now (some input) s).0)
    by_check (throw e) h = rw (h, dispatch) (v, stays (held s))
    by_check (ok envelope) h = rw (h, dispatch) (acquire-Semaphore p now envelope s v)
Step-Semaphore lib p {s} (leaves true h) (counted, within) = (
  (omega (arith, counted, h), omega (arith, within, h)),
  step_to p.most_inflight (held s) (held s) _ (stays (held s)) (omega (arith, h)),
)
Step-Semaphore lib p {s} (leaves false h) (counted, within) = (
  (omega (arith, counted, h), omega (arith, within, h)),
  gives_one p.most_inflight (held s) _ (omega (arith, h)),
)
Step-Semaphore lib p {s} (settles h) (counted, within) = (
  (omega (arith, counted, h), omega (arith, within, h)),
  gives_one p.most_inflight (held s) _ (omega (arith, h)),
)

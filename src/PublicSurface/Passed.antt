-- ===== src/PublicSurface/Passed.antt =====
-- public-surface.mjs, `publicMiddleware`: what a request has shown that reaches its handler, and how many do.
use oncm.Prelude.{
  ℕ, ◌+◌, ◌≤◌, ◌<◌, ◌≡◌, refl, ap, ◌⊎◌, inl, inr, Bool, true, false, Option, none, some, List, [],
  ◌∷◌, String, is_same, is_same_iff, String-discrete, Bool-cases, Option-cases, arith,
}
use oncm.Prelude.Keyed.{get}
use oncm.RateLimit.{Call, admit, granted, amount}
use oncm.RateLimit.Bounds.{IsValid}
use oncm.RateLimit.Interval.{Between, granted_interval}
use oncm.PublicSurface.Policy.{Policy}
use oncm.PublicSurface.Middleware.{
  Request, Limiters, Answer, passes, status, Reply, global_limits, client_limits, is_origin,
  is_origin-eq, requested_of, is_rpc, screen, settle_request, client_of, public_middleware,
  Admitted, Screened, screen-Screened,
}

settle_request-passes :
    (policy : Policy) (r : Request)
    → (settle_request policy r).answer ≡ passes
    → (is_same r.method "OPTIONS" ≡ false) × (r.rebuild ≡ false)
unfolding settle_request
settle_request-passes policy r h = elim (Bool-cases (is_same r.method "OPTIONS")) [
  | inl options ↦ elim (Bool-cases (is_rpc r)) [
    | inl rpc ↦ cc (rw (options, rpc, settle_request) at h)
    | inr page ↦ elim (Bool-cases (is_origin r.origin policy.origin)) [
      | inl o ↦ cc (rw (options, page, o, settle_request) at h)
      | inr o ↦ cc (rw (options, page, o, settle_request) at h)
    ]
  ]
  | inr other ↦ elim (Bool-cases r.rebuild) [
    | inl again ↦ cc (rw (other, again, settle_request) at h)
    | inr fresh ↦ (other, fresh)
  ]
]

Screened-Admitted :
    (policy : Policy) (r : Request)
    → Screened policy r
    → is_same r.method "OPTIONS" ≡ false
    → r.rebuild ≡ false
    → Admitted policy r
unfolding requested_of is_rpc
Screened-Admitted policy r (host, route, origin, auth) plain fresh = (
  is_origin-eq r.host policy.host host,
  rw (plain, requested_of) at route,
  by_origin r.origin origin,
  (λ p m. is_origin-eq r.origin policy.origin (auth p ((is_same_iff r.method "POST").1 m))),
  fresh,
)
  where
    by_origin :
        (o : Option String)
        → (is_rpc r ≡ true)
          ⊎ (elim o as (λ _. Bool) [ none ↦ true | some x ↦ is_same x policy.origin ] ≡ true)
        → (r.path ≡ "/rpc") ⊎ (o ≡ none) ⊎ (o ≡ some policy.origin)
    by_origin o (inl rpc) = inl ((is_same_iff r.path "/rpc").0 rpc)
    by_origin none (inr h) = inr (inl refl)
    by_origin (some x) (inr h) =
        inr (inr (ap (λ (y : String). some y) ((is_same_iff x policy.origin).0 h)))

-- the calls of the two limiters
abbrev pub global_call : ℕ → Call String
global_call now = record { time = now; key = "all"; cost = 1 }

abbrev pub client_call : (String → Bool) → ℕ → Request → Call String
client_call is_ip later r = record { time = later; key = client_of is_ip r; cost = 1 }

-- What becomes of a request that is not answered before the limiters.
-- An answer before the limiters is a status.
screen_refuses :
    (policy : Policy) (r : Request) (reply : Reply)
    → screen policy r ≡ some reply
    → reply.answer ≡ passes
    → ⊥
unfolding screen
screen_refuses policy r reply h k = ground arith

limited :
    (is_ip : String → Bool) (policy : Policy) (now later : ℕ) (r : Request) (s : Limiters)
    → (public_middleware is_ip policy now later r s).1.answer ≡ passes
    → (screen policy r ≡ none)
      × ((admit String-discrete global_limits (global_call now) s.global).1 ≡ true)
      × ((admit String-discrete client_limits (client_call is_ip later r) s.clients).1 ≡ true)
      × ((settle_request policy r).answer ≡ passes)
unfolding public_middleware
limited is_ip policy now later r s h = elim (Option-cases (screen policy r)) [
  | inr (reply, e) ↦ absurd (screen_refuses policy r reply e (rw (e, public_middleware) at h))
  | inl e ↦ elim (Bool-cases (admit String-discrete global_limits (global_call now) s.global).1) [
    | inr full ↦ cc (rw (e, full, public_middleware) at h)
    | inl free ↦
        elim (Bool-cases
          (admit String-discrete client_limits (client_call is_ip later r) s.clients).1) [
            | inr full ↦ cc (rw (e, free, full, public_middleware) at h)
            | inl mine ↦ (e, free, mine, rw (e, free, mine, public_middleware) at h)
          ]
  ]
]

-- A request that reaches its handler in public mode names the server's host, asks for a route that is kept, comes from
-- the server's own page where its origin is told and the route is not /rpc, and in any case to sign in or out, does
-- not ask to rebuild, and was let through by both limiters.
pub passes-Admitted :
    (is_ip : String → Bool) (policy : Policy) (now later : ℕ) (r : Request) (s : Limiters)
    → (public_middleware is_ip policy now later r s).1.answer ≡ passes
    → Admitted policy r
      × ((admit String-discrete global_limits (global_call now) s.global).1 ≡ true)
      × ((admit String-discrete client_limits (client_call is_ip later r) s.clients).1 ≡ true)
passes-Admitted is_ip policy now later r s h =
    let (e, free, mine, settled) = limited is_ip policy now later r s h in
    let (plain, fresh) = settle_request-passes policy r settled in
    (Screened-Admitted policy r (screen-Screened policy r e) plain fresh, free, mine)

pub record Arrival : Type 0 where
  pub now : ℕ
  pub later : ℕ
  pub request : Request

abbrev pub has_passed : Answer → ℕ
has_passed passes = 1
has_passed (status n) = 0

module _ (is_ip : String → Bool) (policy : Policy) where
  -- How many of the requests reach their handlers.
  unfoldable pub passed : List Arrival → Limiters → ℕ
  passed [] s = 0
  passed (a ∷ as') s =
      let (s', reply) = public_middleware is_ip policy a.now a.later a.request s in
      has_passed reply.answer + passed as' s'

  -- The calls of the limiter that all requests share.
  unfoldable pub global_calls : List Arrival → List (Call String)
  global_calls [] = []
  global_calls (a ∷ as') = elim (screen policy a.request) [
    | none ↦ global_call a.now ∷ global_calls as'
    | some _ ↦ global_calls as'
  ]

  screened_out :
      (a : Arrival) (s : Limiters) (reply : Reply)
      → screen policy a.request ≡ some reply
      → ((public_middleware is_ip policy a.now a.later a.request s).0 ≡ s)
        × (has_passed (public_middleware is_ip policy a.now a.later a.request s).1.answer ≡ 0)
  unfolding public_middleware
  screened_out a s reply e = rw (e, public_middleware) (refl, zero_of reply.answer refl)
    where
      zero_of : (x : Answer) → reply.answer ≡ x → has_passed reply.answer ≡ 0
      zero_of passes h = absurd (screen_refuses policy a.request reply e h)
      zero_of (status n) h = rw h refl

  let_in :
      (a : Arrival) (s : Limiters)
      → screen policy a.request ≡ none
      → ((public_middleware is_ip policy a.now a.later a.request s).0.global
          ≡ (admit String-discrete global_limits (global_call a.now) s.global).0)
        × (has_passed (public_middleware is_ip policy a.now a.later a.request s).1.answer
            ≤ amount String-discrete global_limits "all"
                (global_call a.now)
                (admit String-discrete global_limits (global_call a.now) s.global).1)
  unfolding public_middleware
  let_in a s e =
      elim (Bool-cases (admit String-discrete global_limits (global_call a.now) s.global).1) [
        | inr full ↦ rw (e, full, public_middleware) (refl, omega arith)
        | inl free ↦ rw (e, free, public_middleware) (refl, at_most_one _)
      ]
    where
      at_most_one : (x : Answer) → has_passed x ≤ 1
      at_most_one passes = omega arith
      at_most_one (status n) = omega arith

  calls_out :
      (a : Arrival) (as' : List Arrival) (reply : Reply)
      → screen policy a.request ≡ some reply
      → global_calls (a ∷ as') ≡ global_calls as'
  unfolding global_calls
  calls_out a as' reply e = rw (e, global_calls) refl

  calls_in :
      (a : Arrival) (as' : List Arrival)
      → screen policy a.request ≡ none
      → global_calls (a ∷ as') ≡ global_call a.now ∷ global_calls as'
  unfolding global_calls
  calls_in a as' e = rw (e, global_calls) refl

  passed-le-granted :
      (as' : List Arrival) (s : Limiters)
      → passed as' s ≤ granted String-discrete global_limits "all" (global_calls as') s.global
  unfolding passed granted
  passed-le-granted [] s = omega arith
  passed-le-granted (a ∷ as') s = elim (Option-cases (screen policy a.request)) [
    | inr (reply, e) ↦
        let (same, none') = screened_out a s reply e in
        rw (calls_out a as' reply e, same, none') (omega (arith, passed-le-granted as' s))
    | inl e ↦
        let (same, le) = let_in a s e in
        let s' = (public_middleware is_ip policy a.now a.later a.request s).0 in
        let ih = passed-le-granted as' s' in
        rw (calls_in a as' e) (omega (arith, le, rw same at ih))
  ]

  -- The times that the shared limiter reads, which never fall, are in an interval.
  abbrev pub Within : ℕ → ℕ → List Arrival → Type 0
  Within t end [] = Unit
  Within t end (a ∷ as') = (t ≤ a.now) × (a.now < end) × Within a.now end as'

  Within-Between :
      (as' : List Arrival) (t u end : ℕ)
      → u ≤ t
      → Within t end as'
      → Between String-discrete global_limits "all" u end (global_calls as')
  unfolding global_calls
  Within-Between [] t u end h w = no_calls
    where
      no_calls : Between String-discrete global_limits "all" u end (global_calls [])
      no_calls = tt
  Within-Between (a ∷ as') t u end h (x, y, w) = elim (Option-cases (screen policy a.request)) [
    | inr (reply, e) ↦
        rw (calls_out a as' reply e) (Within-Between as' a.now u end (omega (arith, h, x)) w)
    | inl e ↦
        rw (calls_in a as' e)
          (omega (arith, h, x), y, Within-Between as' a.now a.now end (omega arith) w)
  ]

  -- In any minute at most 600 requests reach their handlers, and at most 300 in the first one, whoever sends them and
  -- whatever clients they name.
  pub passed_interval :
      (as' : List Arrival) (t end : ℕ) (s : Limiters)
      → IsValid String-discrete global_limits s.global
      → end ≤ t + 60000
      → Within t end as'
      → (passed as' s ≤ 600) × (get String-discrete "all" s.global ≡ none → passed as' s ≤ 300)
  passed_interval as' t end s v e w =
      let (a, b) =
        granted_interval String-discrete global_limits "all" (global_calls as') t end s.global v e
          (Within-Between as' t t end (omega arith) w) in
      let le = passed-le-granted as' s in (omega (arith, a, le), λ h. omega (arith, b h, le))

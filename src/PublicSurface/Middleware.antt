-- ===== src/PublicSurface/Middleware.antt =====
-- public-surface.mjs, `publicMiddleware`: what a request passes before its handler, with the two limiters.
use oncm.Prelude.{
  ℕ, ◌≡◌, refl, ap, ◌⊎◌, inl, inr, Bool, true, false, ◌&&◌, ◌||◌, not, Option, none, some, List,
  if◌then◌else◌, String, is_same, is_same_iff, without_prefix, String-discrete, Bool-cases,
}
use oncm.RateLimit.{Bucket, Limits, admit}
use oncm.PublicSurface.Routes.{public_route_allowed}
use oncm.PublicSurface.Policy.{Policy}

pub record Request : Type 0 where
  pub method : String
  pub path : String
  pub host : Option String
  pub origin : Option String
  pub requested_method : Option String
  pub client_ip : Option String
  pub rebuild : Bool

pub record Limiters : Type 0 where
  pub global : List (String × Bucket)
  pub clients : List (String × Bucket)

-- What becomes of a request: it goes to its handler, or is answered with a status. `allow_origin` is the header
-- that lets another page read the answer.
pub data Answer : Type 0 where
  passes : Answer
  status : ℕ → Answer

pub record Reply : Type 0 where
  pub answer : Answer
  pub allow_origin : Option String
  pub allow_credentials : Bool

abbrev pub global_limits : Limits
global_limits = record { limit = 300; window_ms = 60000; keys = 1 }

abbrev pub client_limits : Limits
client_limits = record { limit = 120; window_ms = 60000; keys = 1024 }

abbrev pub is_origin : Option String → String → Bool
is_origin none o = false
is_origin (some s) o = is_same s o

abbrev pub refuse : ℕ → Option String → Reply
refuse n allowed = record { answer = status n; allow_origin = allowed; allow_credentials = false }

unfoldable pub requested_of : Request → String
requested_of r =
    if is_same r.method "OPTIONS"
    then (elim r.requested_method [ none ↦ "" | some m ↦ m ])
    else r.method

unfoldable pub is_rpc : Request → Bool
is_rpc r = is_same r.path "/rpc"

unfoldable pub is_auth_path : String → Bool
unfolding without_prefix
is_auth_path path = elim (without_prefix "/api/auth/" path) [ none ↦ false | some _ ↦ true ]

-- the answers before the limiters: `none` lets the request go on
unfoldable pub screen : Policy → Request → Option Reply
unfolding is_rpc requested_of is_auth_path
screen policy r =
    let allowed : Option String = if is_rpc r then some "*" else none in
    if not (is_origin r.host policy.host)
    then some (refuse 403 none)
    else if not (is_rpc r) && not (elim r.origin [ none ↦ true | some o ↦ is_same o policy.origin ])
    then some (refuse 403 none)
    else if not (public_route_allowed (requested_of r) r.path)
    then some (refuse 404 allowed)
    else if is_auth_path r.path && is_same r.method "POST" && not (is_origin r.origin policy.origin)
    then some (refuse 403 allowed)
    else none

-- the answers after the limiters
unfoldable pub settle_request : Policy → Request → Reply
unfolding is_rpc
settle_request policy r =
    let allowed : Option String = if is_rpc r then some "*" else none in
    if is_same r.method "OPTIONS"
    then (if is_rpc r
        then record { answer = status 204; allow_origin = allowed; allow_credentials = false }
        else if is_origin r.origin policy.origin
        then record {
          answer = status 204;
          allow_origin = some policy.origin;
          allow_credentials = true;
        }
        else refuse 403 allowed)
    else if r.rebuild
    then refuse 400 allowed
    else record { answer = passes; allow_origin = allowed; allow_credentials = false }

unfoldable pub client_of : (String → Bool) → Request → String
client_of is_ip r = elim r.client_ip [
  | none ↦ "shared-proxy"
  | some ip ↦ if is_ip ip then ip else "shared-proxy"
]

-- One request, at what the clock shows to each limiter.
unfoldable pub public_middleware :
    (String → Bool) → Policy → ℕ → ℕ → Request → Limiters → Limiters × Reply
unfolding screen settle_request client_of
public_middleware is_ip policy now later r s = elim (screen policy r) [
  | some reply ↦ (s, reply)
  | none ↦
      let global =
        admit String-discrete global_limits (record { time = now; key = "all"; cost = 1 })
          s.global in
      let clients =
        admit String-discrete client_limits
          (record { time = later; key = client_of is_ip r; cost = 1 }) s.clients in
      (
        record { global = global.0; clients = if global.1 then clients.0 else s.clients },
        if not global.1 || not clients.1
            then refuse 429 (if is_rpc r then some "*" else none)
            else settle_request policy r,
      )
]

-- What a request that passes has shown.
abbrev pub Admitted : Policy → Request → Type 0
Admitted policy r =
    (r.host ≡ some policy.host)
    × (public_route_allowed r.method r.path ≡ true)
    × ((r.path ≡ "/rpc") ⊎ (r.origin ≡ none) ⊎ (r.origin ≡ some policy.origin))
    × (is_auth_path r.path ≡ true → r.method ≡ "POST" → r.origin ≡ some policy.origin)
    × (r.rebuild ≡ false)

pub is_origin-eq : (o : Option String) (s : String) → is_origin o s ≡ true → o ≡ some s
is_origin-eq none s h = cc
is_origin-eq (some t) s h = ap (λ (x : String). some x) ((is_same_iff t s).0 h)

-- `next()` at once where the policy is not enabled
unfoldable pub middleware :
    (String → Bool) → Option Policy → ℕ → ℕ → Request → Limiters → Limiters × Reply
middleware is_ip none now later r s =
    (s, record { answer = passes; allow_origin = none; allow_credentials = false })
middleware is_ip (some policy) now later r s = public_middleware is_ip policy now later r s

abbrev pub Screened : Policy → Request → Type 0
Screened policy r =
    (is_origin r.host policy.host ≡ true)
    × (public_route_allowed (requested_of r) r.path ≡ true)
    × ((is_rpc r ≡ true)
        ⊎ (elim r.origin as (λ _. Bool) [ none ↦ true | some o ↦ is_same o policy.origin ] ≡ true))
    × (is_auth_path r.path ≡ true
        → is_same r.method "POST" ≡ true
        → is_origin r.origin policy.origin ≡ true)

or_case : (a b : Bool) → (not a && not b) ≡ false → (a ≡ true) ⊎ (b ≡ true)
or_case true b h = inl refl
or_case false true h = inr refl
or_case false false h = cc

all_three : (a b c : Bool) → (a && b && not c) ≡ false → a ≡ true → b ≡ true → c ≡ true
all_three a b true h x y = refl
all_three true true false h x y = cc
all_three true false false h x y = cc
all_three false b false h x y = cc

pub screen-Screened : (policy : Policy) (r : Request) → screen policy r ≡ none → Screened policy r
unfolding screen
screen-Screened policy r h = elim (Bool-cases (is_origin r.host policy.host)) [
  | inr bad ↦ cc (rw (bad, screen) at h)
  | inl host ↦
      elim (Bool-cases (
        not (is_rpc r) && not (elim r.origin [ none ↦ true | some o ↦ is_same o policy.origin ]))) [
          | inl bad ↦ cc (rw (host, bad, screen) at h)
          | inr origin ↦ elim (Bool-cases (public_route_allowed (requested_of r) r.path)) [
            | inr bad ↦ cc (rw (host, origin, bad, screen) at h)
            | inl route ↦
                elim (Bool-cases (
                  is_auth_path r.path
                  && is_same r.method "POST"
                  && not (is_origin r.origin policy.origin))) [
                    | inl bad ↦ cc (rw (host, origin, route, bad, screen) at h)
                    | inr auth ↦ (host, route, or_case _ _ origin, all_three _ _ _ auth)
                  ]
          ]
        ]
]

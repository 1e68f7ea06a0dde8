-- ===== src/PublicSurface/Examples.antt =====
-- public-surface.mjs at a concrete policy, requests and handlers.
use oncm.Prelude.{
  ℕ, ◌≤◌, ◌≡◌, refl, true, false, none, some, List, [], ◌∷◌, String-discrete, ℕ_discrete, arith, ok,
  throw,
}
use oncm.Prelude.Keyed.{get, put, delete}
use oncm.RateLimit.{admit}
use oncm.RateLimit.Bounds.{IsValid}
use oncm.PublicSurface.Routes.{public_route_allowed}
use oncm.PublicSurface.Policy.{
  Url, Platform, Policy, create_public_policy, bad_origin, browser_config, pick,
}
use oncm.PublicSurface.Middleware.{
  Request, Limiters, passes, status, public_middleware, global_limits, client_limits, Admitted,
}
use oncm.PublicSurface.Passed.{
  passes-Admitted, global_call, client_call, Arrival, passed, passed_interval,
}
use oncm.PublicSurface.Slots

program : Unit {0}
unfolding public_route_allowed create_public_policy public_middleware admit pick browser_config
    ℕ_discrete get put delete
program = tt

abbrev site : Url
site = record {
  protocol = "https:";
  origin = "https://vault.example";
  username = "";
  password = "";
  hostname = "vault.example";
  host = "vault.example";
}

-- a platform that knows one URL
abbrev platform : Platform
platform = record {
  parse_url = λ s. some site;
  is_ip = λ s. false;
  is_address = λ s. true;
  checksummed = λ s. s;
}

abbrev policy : Policy
policy = record { origin = "https://vault.example"; host = "vault.example"; owner = none }

policy_made :
    create_public_policy platform
      (record { origin = "https://vault.example"; owner = ""; writes = "" })
    ≡ ok (some policy)
unfolding program
policy_made = refl

path_refused :
    create_public_policy platform
      (record { origin = "https://vault.example/"; owner = ""; writes = "" })
    ≡ throw bad_origin
unfolding program
path_refused = refl

profile_kept :
    public_route_allowed "GET" "/api/profiles/0xaaaaaaaaaaaaaaaaaaaaaaaaaaaaaaaaaaaaaaaa" ≡ true
unfolding program
profile_kept = refl

mining_not_kept : public_route_allowed "POST" "/api/mine" ≡ false
unfolding program
mining_not_kept = refl

secrets_kept_back :
    pick {V = ℕ} (("name", 1) ∷ ("privateKey", 2) ∷ []) ("name" ∷ "chainId" ∷ []) ≡ ("name", 1) ∷ []
unfolding program
secrets_kept_back = refl

abbrev page : Request
page = record {
  method = "GET";
  path = "/api/config";
  host = some "vault.example";
  origin = none;
  requested_method = none;
  client_ip = none;
  rebuild = false;
}

abbrev nobody : Limiters
nobody = record { global = []; clients = [] }

page_passes : (public_middleware (λ s. false) policy 5 6 page nobody).1.answer ≡ passes
unfolding program
page_passes = refl

rebuild_refused :
    (public_middleware (λ s. false) policy 5 6 (record page { rebuild = true }) nobody).1.answer
    ≡ status 400
unfolding program
rebuild_refused = refl

other_host :
    (public_middleware (λ s. false) policy 5 6 (record page { host = none }) nobody).1.answer
    ≡ status 403
unfolding program
other_host = refl

passes-Admitted_example :
    Admitted policy page
    × ((admit String-discrete global_limits (global_call 5) []).1 ≡ true)
    × ((admit String-discrete client_limits (client_call (λ s. false) 6 page) []).1 ≡ true)
passes-Admitted_example = passes-Admitted (λ s. false) policy 5 6 page nobody page_passes

abbrev arrivals : List Arrival
arrivals =
    record { now = 5; later = 6; request = page }
    ∷ record { now = 9; later = 9; request = page }
    ∷ []

nobody-IsValid : IsValid String-discrete global_limits []
nobody-IsValid = record { distinct = tt; room = omega arith; within = tt }

passed_interval_example :
    (passed (λ s. false) policy arrivals nobody ≤ 600)
    × (get String-discrete "all" nobody.global ≡ none
        → passed (λ s. false) policy arrivals nobody ≤ 300)
passed_interval_example =
    passed_interval (λ s. false) policy arrivals 5 60005 nobody nobody-IsValid (omega arith)
      (omega arith)

abbrev limits : Slots.Limits
limits = record { max_inflight = 1; response_bytes = 100 }

slots_program : Unit {0}
unfolding Slots.arrive Slots.send_json Slots.time_out Slots.finish Slots.start ℕ_discrete get put
    delete
slots_program = tt

-- The second request finds no slot, since the first has only timed out.
late_first : Slots.arrive limits 2 (Slots.time_out 1 (Slots.arrive limits 1 Slots.start)) ≡ record {
  active = 1;
  open_requests = (1, some (Slots.answered 504)) ∷ [];
  done = (2, some (Slots.answered 429)) ∷ [];
}
unfolding slots_program
late_first = refl

abbrev busy : Slots.Reach limits Slots.start (Slots.time_out 1 (Slots.arrive limits 1 Slots.start))
unfolding slots_program
busy =
    Slots.next (Slots.next Slots.here (Slots.arrives Slots.start 1 refl))
      (Slots.times_out (Slots.arrive limits 1 Slots.start) 1)

start-Counted : Slots.Counted limits Slots.start
unfolding slots_program
start-Counted = record { distinct = tt; counted = refl; bounded = omega arith }

Reach-Counted_example : Slots.Counted limits (Slots.time_out 1 (Slots.arrive limits 1 Slots.start))
Reach-Counted_example = Slots.Reach-Counted limits busy start-Counted

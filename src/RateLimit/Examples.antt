-- ===== src/RateLimit/Examples.antt =====
-- rpc-gateway.mjs, `createWindowLimiter`: runs of the limiter, and the theorems at concrete inputs.
use oncm.Prelude.{ℕ, ◌*◌, ◌≤◌, ◌≡◌, refl, List, [], ◌∷◌, arith, false, ℕ_discrete, none}
use oncm.Prelude.Keyed.{get, put}
use oncm.RateLimit.{Bucket, Limits, Call, admit, after, granted, admit_live, charge}
use oncm.RateLimit.Bounds.{IsValid}
use oncm.RateLimit.Interval.{granted_interval}

program : Unit {0}
unfolding get put charge admit_live admit granted after ℕ_discrete
program = tt

abbrev small : Limits
small = record { limit = 2; window_ms = 10; keys = 2 }

abbrev at : ℕ → ℕ → Call ℕ
at time key = record { time = time; key = key; cost = 1 }

-- the full limit at the end of one window, and again at the start of the next
abbrev burst : List (Call ℕ)
burst = at 8 1 ∷ at 9 1 ∷ at 9 1 ∷ at 10 1 ∷ at 11 1 ∷ at 12 1 ∷ []

abbrev opened_at_0 : List (ℕ × Bucket)
opened_at_0 = (1, record { until = 10; used = 0 }) ∷ []

burst_passes : granted ℕ_discrete small 1 burst opened_at_0 ≡ 4
unfolding program
burst_passes = refl

third_key_refused :
    (admit ℕ_discrete small (at 5 3) (after ℕ_discrete small (at 1 1 ∷ at 1 2 ∷ []) [])).1 ≡ false
unfolding program
third_key_refused = refl

opened-IsValid : IsValid ℕ_discrete small opened_at_0
opened-IsValid = record { distinct = omega arith; room = omega arith; within = omega arith }

granted_interval_example :
    (granted ℕ_discrete small 1 burst opened_at_0 ≤ 2 * 2)
    × (get ℕ_discrete 1 opened_at_0 ≡ none → granted ℕ_discrete small 1 burst opened_at_0 ≤ 2)
granted_interval_example =
    granted_interval ℕ_discrete small 1 burst 8 18 opened_at_0 opened-IsValid (omega arith)
      (omega arith)

-- ===== src/PublicLogs/Examples.antt =====
-- public-logs.mjs: a chain with one log in each block.
use oncm.Prelude.{ℕ, suc, ◌+◌, ◌-◌, ◌≡◌, refl, ap, none, List, [], ◌∷◌, Result, ok, throw, arith}
use oncm.Prelude.Int.{pos}
use oncm.PublicLogs.{
  Error, Query, by_hash, range, Limits, Chain, Filter, latest, earliest, number, append,
  fetch_range, paginated_logs, provider_failed, too_large, too_many_pages,
}
use oncm.PublicLogs.Pages.{blocks, Answers, fetch_range-append}

program : Unit {0}
unfolding paginated_logs fetch_range append
program = tt

abbrev one_each : ℕ → List ℕ
one_each n = n ∷ []

-- a provider that answers with the logs of the blocks
abbrev provider : Query → Result Error (List ℕ)
provider (by_hash h) = throw provider_failed
provider (range a b) = ok (blocks one_each a (suc b - a))

abbrev weight : ℕ → ℕ
weight n = 2

abbrev limits : Limits
limits = record { page_size = 2; max_logs = 5; max_bytes = 10; max_pages = 3 }

abbrev chain : Chain
chain = record { head = ok 13; block = λ t. ok 12 }

abbrev filter : Filter
filter = record { block_hash = none; from_block = number (pos 10); to_block = latest }

abbrev answer : List ℕ
answer = 10 ∷ 11 ∷ 12 ∷ 13 ∷ []

found : paginated_logs weight limits provider chain filter ≡ ok answer
unfolding program
found = refl

too_much :
    paginated_logs weight limits provider chain (record filter { from_block = number (pos 8) })
    ≡ throw too_large
unfolding program
too_much = refl

too_far :
    paginated_logs weight limits provider chain (record filter { from_block = earliest })
    ≡ throw too_many_pages
unfolding program
too_far = refl

provider-Answers : Answers weight limits provider one_each
provider-Answers a n =
    let e : suc (a + n) - a ≡ suc n = omega arith in ap (λ (k : ℕ). ok (blocks one_each a k)) e

fetch_range-append_example :
    fetch_range weight limits provider 10 13
    ≡ append weight limits provider (blocks one_each 10 4) ([], 0)
fetch_range-append_example =
    fetch_range-append weight limits provider one_each 10 13 provider-Answers (omega arith)
      (omega arith) (omega arith)

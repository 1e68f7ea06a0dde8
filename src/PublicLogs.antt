-- ===== src/PublicLogs.antt =====
-- implementations/vault/sdk/public-logs.mjs, `paginatedLogs`: a query of logs split into pages.
-- A log is anything; what its JSON takes in bytes is a parameter, as are the provider's answers.
pub mod Pages
pub mod Bounds
mod Examples
use oncm.Prelude.{
  ℕ, zero, suc, ◌+◌, ◌-◌, ◌/◌, ◌||◌, Option, none, some, List, [], ◌∷◌, ◌++◌, length, ltb, leb,
  ◌==◌, if◌then◌else◌, Result, ok, throw, ◌>>=◌, ◌>>◌, throw_if,
}
use oncm.Prelude.Int.{ℤ, pos, negsuc}

pub data Error : Type 0 where
  negative_block backwards too_many_pages too_large division_by_zero unfinished provider_failed :
      Error

-- What `fromBlock` and `toBlock` may be; `latest` stands for `undefined` and for 'pending' too.
pub data Tag : Type 0 where
  latest earliest safe finalized : Tag
  number : ℤ → Tag

pub record Filter : Type 0 where
  pub block_hash : Option ℕ
  pub from_block : Tag
  pub to_block : Tag

pub data Query : Type 0 where
  by_hash : ℕ → Query
  range : ℕ → ℕ → Query

pub record Limits : Type 0 where
  pub page_size : ℕ
  pub max_logs : ℕ
  pub max_bytes : ℕ
  pub max_pages : ℕ

-- `head` and `block`
pub record Chain : Type 0 where
  pub head : Result Error ℕ
  pub block : Tag → Result Error ℕ

-- the call-wide `latest`, asked for once, and the number
unfoldable pub block_number : Chain → Tag → Option ℕ → Result Error (Option ℕ × ℕ)
block_number chain latest (some n) = ok (some n, n)
block_number chain latest none = do n ← chain.head; ok (some n, n)
block_number chain earliest known = ok (known, 0)
block_number chain safe known = do n ← chain.block safe; ok (known, n)
block_number chain finalized known = do n ← chain.block finalized; ok (known, n)
block_number chain (number (pos n)) known = ok (known, n)
block_number chain (number (negsuc _)) known = throw negative_block

module _ {A : Type 0} (size_of : A → ℕ) (l : Limits) (query : Query → Result Error (List A)) where
  -- `append`, at the logs so far and their bytes
  unfoldable pub append : List A → List A × ℕ → Result Error (List A × ℕ)
  append [] acc = ok acc
  append (x ∷ page) (logs, bytes) =
      let bytes' = bytes + size_of x in
      let rest = append page (logs ++ x ∷ [], bytes') in
      if leb l.max_logs (length logs) || ltb l.max_bytes bytes' then throw too_large else rest

  -- the loop, from the block `start` to `last`, with fuel
  unfoldable pub fetch : ℕ → ℕ → ℕ → List A × ℕ → Result Error (List A × ℕ)
  fetch zero start last acc = if leb start last then throw unfinished else ok acc
  fetch (suc fuel) start last acc =
      let end = if ltb last (start + l.page_size - 1) then last else start + l.page_size - 1 in
      let more = (do
        page ← query (range start end)
        acc' ← append page acc
        fetch fuel (start + l.page_size) last acc') in
      if leb start last then more else ok acc

  -- from the two ends on
  unfoldable pub fetch_range : ℕ → ℕ → Result Error (List A × ℕ)
  unfolding fetch
  fetch_range first last = do
    throw_if (ltb last first) backwards
    throw_if (l.page_size == 0) division_by_zero
    throw_if (ltb l.max_pages ((last - first) / l.page_size + 1)) too_many_pages
    fetch ((last - first) / l.page_size + 1) first last ([], 0)

  unfoldable pub paginated_logs : Chain → Filter → Result Error (List A)
  unfolding append fetch_range block_number
  paginated_logs chain f = elim f.block_hash [
    | some hash ↦ do page ← query (by_hash hash); (logs, _) ← append page ([], 0); ok logs
    | none ↦ do
      (known, first) ← block_number chain f.from_block none
      (_, last) ← block_number chain f.to_block known
      (logs, _) ← fetch_range first last
      ok logs
  ]

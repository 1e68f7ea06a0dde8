-- ===== src/Treasury/Allocation.antt =====
-- treasury.mjs, `allocationWithTreasury`: largest remainders over 10000 basis points.
pub mod Rounding
pub mod Shares
pub mod Reading
mod Examples
use oncm.Prelude.{
  ℕ, zero, suc, ◌+◌, ◌-◌, ◌*◌, ◌/◌, ◌%◌, Bool, ◌||◌, not, List, [], ◌∷◌, ◌++◌, map, length, keep,
  any, sum_of, ltb, leb, ◌==◌, if◌then◌else◌, Result, ◌>>=◌, ◌>>◌, ok, throw, throw_if,
}
use oncm.Prelude.Int.{ℤ, pos, negsuc}
use oncm.Prelude.Sort.{sort}

pub data Error : Type 0 where
  zero_address not_unsigned bad_share bad_allocation bad_recipient not_total bad_others out_of_range
        rounds_to_zero :
      Error

pub record Row : Type 0 where
  pub recipient : ℕ
  pub weight : ℕ

pub record Scaled : Type 0 where
  pub row : Row
  pub open row use *
  pub remainder : ℕ

pub record Active : Type 0 where
  pub recipients : List ℕ
  pub weights : List ℤ
  pub epoch : ℕ

pub record Draft : Type 0 where
  pub rows : List Row
  pub base_epoch : ℕ

unfoldable pub address : ℕ → Result Error ℕ
address a = if a == 0 then throw zero_address else ok a

-- the test of the decimal text fails exactly for a negative integer
unfoldable pub uint : ℤ → Result Error ℕ
uint (pos n) = ok n
uint (negsuc n) = throw not_unsigned

abbrev pub contains : List ℕ → ℕ → Bool
contains seen a = any (λ b. b == a) seen

-- one round of `allocation.recipients.map((a, i) => …)`, with the set `seen`
unfoldable pub read_row : ℕ → ℤ → List ℕ → Result Error Row
unfolding address uint
read_row a w seen = do
  recipient ← address a
  weight ← uint w
  throw_if (weight == 0 || contains seen recipient) bad_recipient
  ok (record { recipient = recipient; weight = weight })

-- The lengths are equal when it is called; past the end of the weights `uint(undefined)` throws.
unfoldable pub read_rows : List ℕ → List ℤ → List ℕ → Result Error (List Row)
unfolding read_row
read_rows [] ws seen = ok []
read_rows (a ∷ rest_a) [] seen = throw not_unsigned
read_rows (a ∷ rest_a) (w ∷ ws) seen = do
  row ← read_row a w seen
  rest ← read_rows rest_a ws (row.recipient ∷ seen)
  ok (row ∷ rest)

-- before others with a smaller remainder; equal remainders by address
unfoldable pub by_remainder : Scaled → Scaled → Bool
by_remainder a b =
    if a.remainder == b.remainder then leb a.recipient b.recipient else ltb b.remainder a.remainder

unfoldable pub by_recipient : Row → Row → Bool
by_recipient a b = leb a.recipient b.recipient

-- `{ ...r, weight: r.weight * remaining / total, remainder: r.weight * remaining % total }`
unfoldable pub scale : ℕ → ℕ → Row → Scaled
scale remaining total r = record {
  row = record r { weight = r.weight * remaining / total };
  remainder = r.weight * remaining % total;
}

-- `for (let i = 0; dust > 0n; i++, dust--) scaled[i].weight++`
unfoldable pub spread : ℕ → List Scaled → Result Error (List Scaled)
spread zero xs = ok xs
spread (suc dust) [] = throw out_of_range
spread (suc dust) (x ∷ xs) = do
  rest ← spread dust xs
  ok (record x { row = record (x.row) { weight = x.row.weight + 1 } } ∷ rest)

-- the rows other than the treasury's
unfoldable pub others_of : ℕ → List Row → List Row
others_of treasury = keep (λ r. not (r.recipient == treasury))

-- from `const others` on
unfoldable pub share_out : ℕ → ℕ → List Row → Result Error (List Row)
unfolding others_of scale by_remainder spread by_recipient
share_out treasury bps rows = do
  let others = others_of treasury rows
  let total = sum_of (λ r. r.weight) others
  let remaining = 10000 - bps
  throw_if (total == 0 || leb 32 (length others)) bad_others
  let scaled = map (scale remaining total) others
  let dust = remaining - sum_of (λ r. r.weight) scaled
  spread_out ← spread dust (sort by_remainder scaled)
  throw_if (any (λ r. r.weight == 0) spread_out) rounds_to_zero
  ok (
      sort by_recipient
        (map (λ r. r.row) spread_out ++ record { recipient = treasury; weight = bps } ∷ []))

unfoldable pub allocation_with_treasury : Active → ℕ → ℤ → Result Error Draft
allocation_with_treasury allocation treasury bps = do
  treasury' ← address treasury
  bps' ← uint bps
  throw_if (ltb bps' 1 || leb 10000 bps') bad_share
  throw_if (not (length allocation.recipients == length allocation.weights)) bad_allocation
  rows ← read_rows allocation.recipients allocation.weights []
  throw_if (not (sum_of (λ r. r.weight) rows == 10000)) not_total
  drafted ← share_out treasury' bps' rows
  ok (record { rows = drafted; base_epoch = allocation.epoch })

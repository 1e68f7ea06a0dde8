-- ===== src/Treasury/Allocation/Examples.antt =====
-- treasury.mjs, `allocationWithTreasury`: a draft with dust, and the theorems at it.
use oncm.Prelude.{ℕ, ◌≡◌, refl, List, [], ◌∷◌, sum_of, ok, throw}
use oncm.Prelude.Int.{pos}
use oncm.Prelude.Sort.{sort, insert_sorted}
use oncm.Treasury.Allocation.{
  Row, bad_others, Active, Draft, address, uint, read_row, read_rows, by_remainder, by_recipient,
  others_of, scale, spread, share_out, allocation_with_treasury,
}
use oncm.Treasury.Allocation.Shares.{IsShared}
use oncm.Treasury.Allocation.Reading.{IsReading, allocation_with_treasury-IsShared}

program : Unit {0}
unfolding address uint read_row read_rows by_remainder by_recipient others_of scale spread share_out
    allocation_with_treasury sort insert_sorted
program = tt

-- three equal parts but for one basis point; the treasury, 7, is not yet among them
abbrev thirds : Active
thirds = record {
  recipients = 5 ∷ 9 ∷ 3 ∷ [];
  weights = pos 3333 ∷ pos 3334 ∷ pos 3333 ∷ [];
  epoch = 4;
}

abbrev row : ℕ → ℕ → Row
row recipient weight = record { recipient = recipient; weight = weight }

-- 8000 shared 3333 : 3334 : 3333 leaves one unit of dust, which goes to the lower address of a tie
abbrev thirds_draft : Draft
thirds_draft = record {
  rows = row 3 2667 ∷ row 5 2666 ∷ row 7 2000 ∷ row 9 2667 ∷ [];
  base_epoch = 4;
}

thirds_drafted : allocation_with_treasury thirds 7 (pos 2000) ≡ ok thirds_draft
unfolding program
thirds_drafted = refl

alone_refused :
    allocation_with_treasury
      (record { recipients = 7 ∷ []; weights = pos 10000 ∷ []; epoch = 1 })
      7
      (pos 2000)
    ≡ throw bad_others
unfolding program
alone_refused = refl

allocation_with_treasury-IsShared_example :
    (rows : List Row) × IsReading thirds.recipients thirds.weights [] rows
    × (sum_of (λ r. r.weight) rows ≡ 10000)
    × IsShared 7 2000 rows thirds_draft.rows
    × (thirds_draft.base_epoch ≡ 4)
allocation_with_treasury-IsShared_example =
    allocation_with_treasury-IsShared thirds 7 2000 thirds_draft thirds_drafted

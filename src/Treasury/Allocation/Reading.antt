-- ===== src/Treasury/Allocation/Reading.antt =====
-- treasury.mjs, `allocationWithTreasury`: the rows read from the active allocation, and the whole draft.
use oncm.Prelude.{
  ℕ, ◌<◌, ◌≡◌, ◌≢◌, false, ◌||◌, not, List, [], ◌∷◌, map, length, sum_of, All, leb, ltb, ◌==◌, ok,
  throw, throw_if, arith, >>=-eq-ok, >>=-ne,
}
use mathlib.Core.Path.{subst₂}
use oncm.Prelude.Int.{ℤ, pos, negsuc}
use oncm.Treasury.Allocation.{
  Row, Active, Draft, out_of_range, address, uint, contains, read_row, read_rows, share_out,
  allocation_with_treasury,
}
use oncm.Treasury.Allocation.Shares.{IsShared, share_out-Outcome, share_out-IsShared}

-- The recipients of the rows are distinct, and not among `seen`.
abbrev pub IsDistinct : List ℕ → List Row → Type 0
IsDistinct seen [] = Unit
IsDistinct seen (r ∷ rs) = (contains seen r.recipient ≡ false) × IsDistinct (r.recipient ∷ seen) rs

-- The rows say what the allocation says: nonzero distinct recipients, and positive weights.
pub record IsReading (recipients : List ℕ) (weights : List ℤ) (seen : List ℕ) (rows : List Row)
    : Type 0 where
  pub same_recipients : map (λ r. r.recipient) rows ≡ recipients
  pub same_weights : map (λ r. pos r.weight) rows ≡ weights
  pub valid : All (λ r. (0 < r.recipient) × (0 < r.weight)) rows
  pub distinct : IsDistinct seen rows

read_row_inv :
    (a : ℕ) (w : ℤ) (seen : List ℕ) (row : Row)
    → read_row a w seen ≡ ok row
    → (row.recipient ≡ a)
      × (pos row.weight ≡ w)
      × (0 < row.recipient)
      × (0 < row.weight)
      × (contains seen row.recipient ≡ false)
unfolding read_row
read_row_inv a (pos w) seen row h = ground arith
read_row_inv a (negsuc w) seen row h = ground arith

read_rows_inv :
    (as' : List ℕ) (ws : List ℤ) (seen : List ℕ) (rows : List Row)
    → length as' ≡ length ws
    → read_rows as' ws seen ≡ ok rows
    → IsReading as' ws seen rows
unfolding read_rows
read_rows_inv [] [] seen rows l h = ground arith
read_rows_inv [] (w ∷ ws) seen rows l h = absurd (omega arith)
read_rows_inv (a ∷ as') [] seen rows l h = cc
read_rows_inv (a ∷ as') (w ∷ ws) seen rows l h =
    let (row, e, h') = >>=-eq-ok (read_row a w seen) _ h in
    let (rest, e', h'') = >>=-eq-ok (read_rows as' ws (row.recipient ∷ seen)) _ h' in
    ground (
      arith,
      read_row_inv a w seen row e,
      read_rows_inv as' ws (row.recipient ∷ seen) rest (omega arith) e',
    )

read_row-ne : (a : ℕ) (w : ℤ) (seen : List ℕ) → read_row a w seen ≢ throw out_of_range
unfolding read_row
read_row-ne a (pos w) seen = ground arith
read_row-ne a (negsuc w) seen = ground arith

read_rows-ne :
    (as' : List ℕ) (ws : List ℤ) (seen : List ℕ) → read_rows as' ws seen ≢ throw out_of_range
unfolding read_rows
read_rows-ne [] ws seen = λ h. cc
read_rows-ne (a ∷ as') [] seen = λ h. cc
read_rows-ne (a ∷ as') (w ∷ ws) seen =
    >>=-ne out_of_range (read_row a w seen) _ (read_row-ne a w seen) λ row e.
      >>=-ne out_of_range (read_rows as' ws (row.recipient ∷ seen)) _ (read_rows-ne as' ws _)
        (λ rest p h. cc)

-- The loop that hands out the dust stays within the rows, whatever allocation it is given.
pub allocation_with_treasury-ne :
    (a : Active) (treasury : ℕ) (bps : ℤ)
    → allocation_with_treasury a treasury bps ≢ throw out_of_range
unfolding allocation_with_treasury address uint
allocation_with_treasury-ne a treasury (negsuc n) = ground arith
allocation_with_treasury-ne a treasury (pos n) =
    >>=-ne out_of_range (address treasury) _ (ground arith) λ t et.
      >>=-ne out_of_range (throw_if (ltb n 1 || leb 10000 n) _) _ (ground arith) λ _ share.
        >>=-ne out_of_range (throw_if (not (length a.recipients == length a.weights)) _) _
          (ground arith)
          λ _ same.
            >>=-ne out_of_range (read_rows a.recipients a.weights []) _ (read_rows-ne _ _ _)
              λ rows e. ground (arith, share_out-Outcome t n rows)

-- A draft that is returned shares out 10000 basis points exactly: the treasury has `bps` of them, and
-- every other recipient of the active allocation has its exact proportional share, rounded to one
-- of the two nearest whole numbers, and at least 1; nobody else has any.
pub allocation_with_treasury-IsShared :
    (a : Active) (treasury bps : ℕ) (d : Draft)
    → allocation_with_treasury a treasury (pos bps) ≡ ok d
    → (rows : List Row) × IsReading a.recipients a.weights [] rows
      × (sum_of (λ r. r.weight) rows ≡ 10000)
      × IsShared treasury bps rows d.rows
      × (d.base_epoch ≡ a.epoch)
unfolding allocation_with_treasury address uint
allocation_with_treasury-IsShared a treasury bps d h =
    let (t, et, h1) = >>=-eq-ok (address treasury) _ h in
    let (_, share, h2) = >>=-eq-ok (throw_if (ltb bps 1 || leb 10000 bps) _) _ h1 in
    let (_, same, h3) =
      >>=-eq-ok (throw_if (not (length a.recipients == length a.weights)) _) _ h2 in
    let (rows, e, h4) = >>=-eq-ok (read_rows a.recipients a.weights []) _ h3 in
    let (_, _, h5) =
      >>=-eq-ok (throw_if (not (sum_of (λ (r : Row). r.weight) rows == 10000)) _) _ h4 in
    let (drafts, shared, h6) = >>=-eq-ok (share_out t bps rows) _ h5 in
    (
      rows,
      read_rows_inv a.recipients a.weights [] rows (ground arith) e,
      ground arith,
      subst₂ (λ t' ds. IsShared t' bps rows ds) (ground arith) (ground arith)
          (share_out-IsShared t bps rows (ground arith) (ground arith) drafts shared),
      ground arith,
    )

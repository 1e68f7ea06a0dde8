-- ===== src/Exchange/Csv/Reader.antt =====
-- A reader of texts with cells behind commas and rows behind line ends, where a cell may stand in quotation marks (RFC 4180).
use oncm.Prelude.{ℕ, ◌≡◌, refl, List, [], ◌∷◌, ◌++◌, ◌==◌, if◌then◌else◌}

-- Where the reader is: before a cell, in one, in one with quotation marks, or behind a mark that may end it.
pub data Mode : Type 0 where
  fresh plain inside behind : Mode

pub record Reader : Type 0 where
  pub mode : Mode
  pub cell : List ℕ
  pub row : List (List ℕ)
  pub rows : List (List (List ℕ))

abbrev pub start : Reader
start = record { mode = fresh; cell = []; row = []; rows = [] }

-- a code with no meaning of its own
abbrev pub put : Mode → ℕ → Reader → Reader
put mode c r = record r { mode = mode; cell = r.cell ++ c ∷ [] }

abbrev pub next_cell : Reader → Reader
next_cell r = record r { mode = fresh; cell = []; row = r.row ++ r.cell ∷ [] }

abbrev pub next_row : Reader → Reader
next_row r = record {
  mode = fresh;
  cell = [];
  row = [];
  rows = r.rows ++ (r.row ++ r.cell ∷ []) ∷ [];
}

-- outside of quotation marks
abbrev pub step_out : ℕ → Reader → Reader
step_out c r = if c == 44 then next_cell r else if c == 10 then next_row r else put plain c r

abbrev pub step_in : Mode → ℕ → Reader → Reader
step_in fresh c r = if c == 34 then record r { mode = inside } else step_out c r
step_in plain c r = step_out c r
step_in inside c r = if c == 34 then record r { mode = behind } else put inside c r
step_in behind c r = if c == 34 then put inside 34 r else step_out c r

unfoldable pub feed : Reader → List ℕ → Reader
feed r [] = r
feed r (c ∷ s) = feed (step_in r.mode c r) s

-- The rows that were read, with the last one.
unfoldable pub read_csv : List ℕ → List (List (List ℕ))
unfolding feed
read_csv s = (next_row (feed start s)).rows

pub feed-append : (r : Reader) (s t : List ℕ) → feed r (s ++ t) ≡ feed (feed r s) t
unfolding feed
feed-append r [] t = refl
feed-append r (c ∷ s) t = feed-append (step_in r.mode c r) s t

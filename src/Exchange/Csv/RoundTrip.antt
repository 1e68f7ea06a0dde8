-- ===== src/Exchange/Csv/RoundTrip.antt =====
-- index.mjs, `executionsCSV`: the text is read back as the cells that it was written for.
use mathlib.Core.List.{append_assoc, append-nil}
use oncm.Prelude.{
  ◌≡◌, ◌≢◌, refl, sym, ap, ◌∙◌, inl, inr, List, [], ◌∷◌, ◌++◌, map, ◌==◌, ==_iff, Bool-cases, All,
  subst, arith,
}
use oncm.Exchange.History.{Execution}
use oncm.Exchange.Csv.{
  Text, Printer, columns, row_cells, begins_formula, guarded, doubled, quoted, join_rest, join,
  line_of, executions_csv,
}
use oncm.Exchange.Csv.Reader.{
  fresh, inside, behind, Reader, start, next_row, feed, feed-append, read_csv,
}

-- Behind the closing mark of a cell.
abbrev After : List (List Text) → List Text → Text → Reader
After rows row cell = record { mode = behind; cell = cell; row = row; rows = rows }

module _ (rows : List (List Text)) where
  feed-doubled :
      (row : List Text) (cell s : Text)
      → feed (record { mode = inside; cell = cell; row = row; rows = rows }) (doubled s)
        ≡ record { mode = inside; cell = cell ++ s; row = row; rows = rows }
  unfolding feed doubled
  feed-doubled row cell [] = rw (append-nil cell) refl
  feed-doubled row cell (c ∷ s) = elim (Bool-cases (c == 34)) [
    | inl e ↦ rw e (
        feed-doubled row (cell ++ 34 ∷ []) s
        ∙ ap (λ u. record { mode = inside; cell = u; row = row; rows = rows })
            (append_assoc cell (34 ∷ []) s ∙ ap (λ d. cell ++ d ∷ s) (sym ((==_iff c 34).0 e))))
    | inr e ↦ rw e (
        rw e (
          feed-doubled row (cell ++ c ∷ []) s
          ∙ ap (λ u. record { mode = inside; cell = u; row = row; rows = rows })
              (append_assoc cell (c ∷ []) s)))
  ]

  feed-quoted :
      (row : List Text) (v : Text)
      → feed (record { mode = fresh; cell = []; row = row; rows = rows }) (quoted v)
        ≡ After rows row (guarded v)
  unfolding quoted feed
  feed-quoted row v =
      feed-append (record { mode = inside; cell = []; row = row; rows = rows })
        (doubled (guarded v)) (34 ∷ [])
      ∙ ap (λ r. feed r (34 ∷ [])) (feed-doubled row [] (guarded v))

  -- The rest of a line, behind its first cell: it ends behind its last cell, and what was read is all there.
  abbrev LineRead : List Text → Text → List Text → Type 0
  LineRead row cell vs =
      (row' : List Text) × (cell' : Text) × (feed (After rows row cell)
          (join_rest 44 (map quoted vs))
        ≡ After rows row' cell')
      × (row' ++ cell' ∷ [] ≡ (row ++ cell ∷ []) ++ map guarded vs)

  feed-cell :
      (row : List Text) (v : Text) (rest : Text)
      → feed (record { mode = fresh; cell = []; row = row; rows = rows }) (quoted v ++ rest)
        ≡ feed (After rows row (guarded v)) rest
  feed-cell row v rest =
      feed-append (record { mode = fresh; cell = []; row = row; rows = rows }) (quoted v) rest
      ∙ ap (λ r. feed r rest) (feed-quoted row v)

  feed-line : (row : List Text) (cell : Text) (vs : List Text) → LineRead row cell vs
  unfolding feed
  feed-line row cell [] = (row, cell, refl, sym (append-nil (row ++ cell ∷ [])))
  feed-line row cell (v ∷ vs) =
      let (row', cell', e, q) = feed-line (row ++ cell ∷ []) (guarded v) vs in
      (
        row',
        cell',
        feed-cell (row ++ cell ∷ []) v (join_rest 44 (map quoted vs)) ∙ e,
        q ∙ append_assoc (row ++ cell ∷ []) (guarded v ∷ []) (map guarded vs),
      )

  -- One row, from behind a line end: what the reader holds afterwards.
  feed-row :
      (v : Text) (vs : List Text)
      → (row' : List Text) × (cell' : Text) × (feed
            (record { mode = fresh; cell = []; row = []; rows = rows })
            (join 44 (map quoted (v ∷ vs)))
          ≡ After rows row' cell')
        × (row' ++ cell' ∷ [] ≡ map guarded (v ∷ vs))
  feed-row v vs =
      let (row', cell', e, q) = feed-line [] (guarded v) vs in
      (row', cell', feed-cell [] v (join_rest 44 (map quoted vs)) ∙ e, q)

-- The cells of each row, after the guard.
abbrev pub cells_of : Printer → List Execution → List (List Text)
cells_of p [] = []
cells_of p (r ∷ rs) = map guarded (row_cells p r) ∷ cells_of p rs

abbrev tail_of : List Text → List Text
tail_of [] = []
tail_of (x ∷ xs) = xs

feed-line_of :
    (p : Printer) (x : Execution) (rows : List (List Text))
    → (row' : List Text) × (cell' : Text) × (feed
          (record { mode = fresh; cell = []; row = []; rows = rows })
          (line_of p x)
        ≡ After rows row' cell')
      × (row' ++ cell' ∷ [] ≡ map guarded (row_cells p x))
unfolding line_of row_cells
feed-line_of p x rows = feed-row rows (p.hex x.statement_id) (tail_of (row_cells p x))

-- Rows behind a cell that a line end ends.
feed-lines :
    (p : Printer) (rs : List Execution) (r : Reader)
    → ((s : Text) → feed r (10 ∷ s) ≡ feed (next_row r) s)
    → (next_row (feed r (join_rest 10 (map (line_of p) rs)))).rows
      ≡ (next_row r).rows ++ cells_of p rs
unfolding feed
feed-lines p [] r ends = sym (append-nil (next_row r).rows)
feed-lines p (x ∷ xs) r ends =
    let before : List (List Text) = (next_row r).rows in
    let (row', cell', e, q) = feed-line_of p x before in
    let rest : Text = join_rest 10 (map (line_of p) xs) in
    ap (λ u. (next_row u).rows)
      (ends (line_of p x ++ rest)
        ∙ feed-append (next_row r) (line_of p x) rest
        ∙ ap (λ u. feed u rest) e)
    ∙ feed-lines p xs (After before row' cell') (λ s. refl)
    ∙ ap (λ u. (before ++ u ∷ []) ++ cells_of p xs) q
    ∙ append_assoc before (map guarded (row_cells p x) ∷ []) (cells_of p xs)

-- A reader of such texts gets back from `executionsCSV` the columns and, for each row in its order, the cells that were written, whatever
-- marks, commas and line ends they hold; a cell differs from its value only by the apostrophe before what a spreadsheet takes for a formula.
pub read_csv-executions_csv :
    (p : Printer) (rows : List Execution)
    → read_csv (executions_csv p rows) ≡ columns ∷ cells_of p rows
unfolding read_csv executions_csv
read_csv-executions_csv p rows =
    ap (λ r. (next_row r).rows)
      (feed-append start (join 44 columns) (join_rest 10 (map (line_of p) rows)))
    ∙ feed-lines p rows (feed start (join 44 columns)) (λ s. refl)

-- A text that no spreadsheet takes for a formula: it does not begin with =, +, @, -, a tab or a carriage return.
abbrev pub IsInert : Text → Type 0
IsInert [] = Unit
IsInert (c ∷ s) = (c ≢ 61) × (c ≢ 43) × (c ≢ 64) × (c ≢ 45) × (c ≢ 9) × (c ≢ 13)

guarded-IsInert : (v : Text) → IsInert (guarded v)
unfolding guarded begins_formula
guarded-IsInert [] = tt
guarded-IsInert (c ∷ s) = elim (Bool-cases (begins_formula c)) [
  | inl e ↦ rw e (omega arith)
  | inr e ↦ rw e (ground arith)
]

cells-IsInert : (vs : List Text) → All IsInert (map guarded vs)
cells-IsInert [] = tt
cells-IsInert (v ∷ vs) = (guarded-IsInert v, cells-IsInert vs)

rows-AllInert : (p : Printer) (rows : List Execution) → All (All IsInert) (cells_of p rows)
rows-AllInert p [] = tt
rows-AllInert p (r ∷ rs) = (cells-IsInert (row_cells p r), rows-AllInert p rs)

columns-AllInert : All IsInert columns
columns-AllInert = omega arith

-- No cell of the text that `executionsCSV` writes is a formula to a spreadsheet that reads it.
pub executions_csv-AllInert :
    (p : Printer) (rows : List Execution) → All (All IsInert) (read_csv (executions_csv p rows))
executions_csv-AllInert p rows =
    subst (All (All IsInert)) (sym (read_csv-executions_csv p rows))
      (columns-AllInert, rows-AllInert p rows)

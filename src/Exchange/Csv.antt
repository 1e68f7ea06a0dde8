-- ===== src/Exchange/Csv.antt =====
-- index.mjs, `executionsCSV`: the history of a wallet as a text. A text is the list of its codes; how a number and a hash are written is a
-- parameter.
pub mod Reader
pub mod RoundTrip
use Prim.Native.Char.{code}
use Prim.Native.String.{String}
use oncm.Prelude.{ℕ, Bool, ◌||◌, Option, none, some, List, [], ◌∷◌, ◌++◌, map, ◌==◌, if◌then◌else◌}
use oncm.Exchange.History.{Direction, buys, sells, complex, Execution}

abbrev pub Text : Type 0
Text = List ℕ

abbrev pub codes : String → Text
codes String.[] = []
codes (String.◌∷◌ c s) = code c ∷ codes s

-- How numbers and hashes are written.
pub record Printer : Type 0 where
  pub decimal : ℕ → Text
  pub hex : ℕ → Text

abbrev pub columns : List Text
columns =
    codes "statementId"
    ∷ codes "title"
    ∷ codes "pool"
    ∷ codes "side"
    ∷ codes "direction"
    ∷ codes "actor"
    ∷ codes "tx"
    ∷ codes "block"
    ∷ codes "logIndex"
    ∷ codes "timestamp"
    ∷ codes "amountIn"
    ∷ codes "inputAsset"
    ∷ codes "amountOut"
    ∷ codes "outputAsset"
    ∷ codes "nominalFeeInput"
    ∷ codes "tAmount"
    ∷ codes "outcomeAmount"
    ∷ []

abbrev pub side_text : ℕ → Text
side_text side = if side == 0 then codes "YES" else codes "NO"

abbrev pub asset_text : Option ℕ → Text
asset_text none = codes "T"
asset_text (some side) = side_text side

abbrev pub direction_text : Direction → Text
direction_text buys = codes "Buy"
direction_text sells = codes "Sell"
direction_text complex = codes "Complex"

-- `v ?? ""`
abbrev pub title_text : Option String → Text
title_text none = []
title_text (some s) = codes s

-- `columns.map((c) => r[c])`
unfoldable pub row_cells : Printer → Execution → List Text
row_cells p r =
    p.hex r.statement_id
    ∷ title_text r.title
    ∷ p.hex r.pool
    ∷ side_text r.side
    ∷ direction_text r.direction
    ∷ p.hex r.actor
    ∷ p.hex r.transaction
    ∷ p.decimal r.block
    ∷ p.decimal r.log_index
    ∷ p.decimal r.timestamp
    ∷ p.decimal r.amount_in
    ∷ asset_text r.input_asset
    ∷ p.decimal r.amount_out
    ∷ asset_text r.output_asset
    ∷ p.decimal r.nominal_fee_input
    ∷ p.decimal r.t_amount
    ∷ p.decimal r.outcome_amount
    ∷ []

-- `/[=+@\-\t\r]/` of one code
unfoldable pub begins_formula : ℕ → Bool
begins_formula c = c == 61 || c == 43 || c == 64 || c == 45 || c == 9 || c == 13

-- A text that a spreadsheet would take for a formula has an apostrophe put before it.
unfoldable pub guarded : Text → Text
unfolding begins_formula
guarded [] = []
guarded (c ∷ s) = if begins_formula c then 39 ∷ c ∷ s else c ∷ s

-- `s.replaceAll('"', '""')`
unfoldable pub doubled : Text → Text
doubled [] = []
doubled (c ∷ s) = (if c == 34 then 34 ∷ 34 ∷ [] else c ∷ []) ++ doubled s

unfoldable pub quoted : Text → Text
unfolding guarded doubled
quoted v = 34 ∷ (doubled (guarded v) ++ 34 ∷ [])

-- `join` with one code, and what it writes behind the first text
abbrev pub join_rest : ℕ → List Text → Text
join_rest sep [] = []
join_rest sep (x ∷ xs) = sep ∷ (x ++ join_rest sep xs)

abbrev pub join : ℕ → List Text → Text
join sep [] = []
join sep (x ∷ xs) = x ++ join_rest sep xs

unfoldable pub line_of : Printer → Execution → Text
unfolding quoted row_cells
line_of p r = join 44 (map quoted (row_cells p r))

unfoldable pub executions_csv : Printer → List Execution → Text
unfolding line_of
executions_csv p rows = join 10 (join 44 columns ∷ map (line_of p) rows)

-- ===== src/Exchange/Examples.antt =====
-- A purchase with its approval, one whose second transaction fails, a history of two trades and its text.
use oncm.Prelude.{
  ◌≡◌, ◌+◌, refl, true, false, Bool, none, some, List, [], ◌∷◌, All, ◌==◌, if◌then◌else◌, throw,
}
use oncm.Prelude.Int.{pos}
use oncm.Prelude.Acting.{Ends, ◌>>=◌}
use oncm.Exchange.Chain.{
  Error, erc20_approve, v2_swap, named, approval, submitted, confirmed, Event, sends, tells,
  Session, Statement, Node, Config, read,
}
use oncm.Exchange.Markets.{Market}
use oncm.Exchange.Trades.{minimum}
use oncm.Exchange.Commands.{Command, trades, run}
use oncm.Exchange.Recorded.{Stopped, Finished}
use oncm.Exchange.Meant.{Approves, Meant}
use oncm.Exchange.Finished.{run-Recorded}
use oncm.Exchange.History.{Execution, buys, executions}
use oncm.Exchange.Trading.{IsHistory, executions-IsHistory}
use oncm.Exchange.Csv.{codes, columns, quoted, Printer, executions_csv}
use oncm.Exchange.Csv.Reader.{read_csv}
use oncm.Exchange.Csv.RoundTrip.{
  cells_of, read_csv-executions_csv, IsInert, executions_csv-AllInert,
}

abbrev statement : Statement
statement = record {
  goal = 1;
  profile = 2;
  dependency = 0;
  deadline = 0;
  resolved_at = 0;
  kind = 0;
  target_outcome = 0;
  outcome = 0;
  market = 40;
  is_known = true;
  creator = 9;
  metadata = "=1+1";
}

abbrev market : Market
market = record {
  id = 70;
  statement = statement;
  metadata = record { title = some "=1+1"; rest = none };
  yes_token = 41;
  no_token = 42;
  pairs = 51 ∷ 52 ∷ [];
}

-- The node takes every transaction; those that are not approvals fail where `fails` says so.
abbrev node_that : Bool → Node
node_that fails = record {
  is_current = λ s. true;
  chain_id = λ t. 31372;
  user = λ s. some 9;
  accepts = λ s a gas. some s.moment;
  confirms = λ s h. if h == 17 then (if fails then false else true) else true;
  estimate = λ s a. some 100000;
  allowance = λ s owner token spender. 5;
  symbol = λ s token. "T";
  timestamp = λ s. 1000;
  block_number = λ s. some 8;
  count = λ s. 1;
  statement_id = λ s i. 70;
  statement = λ s id. statement;
  outcome_token = λ s m i. if i == 0 then 41 else 42;
  pair = λ s a b. if a == 41 then 51 else 52;
  derived_outcome = λ s id. 0;
  quote_out = λ s n path. some n;
  balance = λ s a b. 0;
  reserves = λ s a. (1, 1);
  first_token = λ s a. 30;
  supply = λ s a. 1;
  swaps = λ s a.
      record { transaction = a; block = a; index = 0; amount_in = (1000, 0); amount_out = (0, 900) }
      ∷ [];
  sender = λ s t. 9;
  block_time = λ s b. 77;
  parse = λ text. none;
  draft_is_current = λ s. true;
}

abbrev config : Config
config = record {
  token = 30;
  router = 31;
  v2_router = 32;
  arbitrage = 33;
  allocation = 34;
  has_signer = true;
}

abbrev opened : Session
opened = record { moment = 0; log = [] }

abbrev purchase : Command
purchase = trades market 0 true 500 450

abbrev approval_log : List Event
approval_log =
    tells confirmed (approval 500 "T") 9
    ∷ tells submitted (approval 500 "T") 9
    ∷ sends 7 (erc20_approve 30 32 500) none 9
    ∷ []

buys_outcome :
    (run (node_that false) config (λ s. 0) purchase opened).0.log
    ≡ tells confirmed (named "Buy YES") 17
      ∷ tells submitted (named "Buy YES") 17
      ∷ sends 12 (v2_swap 500 450 (30, 41) 9 1300) (some 150000) 17
      ∷ approval_log
unfolding run ◌>>=◌ read
buys_outcome = refl

-- The same with a purchase that fails after it was sent: it stays as submitted.
fails_last : run (node_that true) config (λ s. 0) purchase opened ≡ (
  record {
    moment = 19;
    log =
        tells submitted (named "Buy YES") 17
        ∷ sends 12 (v2_swap 500 450 (30, 41) 9 1300) (some 150000) 17
        ∷ approval_log;
  },
  throw Error.reverted,
)
unfolding run ◌>>=◌ read
fails_last = refl

run-Recorded_example :
    Ends
      (λ s.
        Stopped
          (node_that true)
          config
          (Approves (node_that true) config purchase)
          (Meant (node_that true) config (λ s. 0) purchase)
          s.log)
      (λ _ s.
        Finished
          (node_that true)
          config
          (Approves (node_that true) config purchase)
          (Meant (node_that true) config (λ s. 0) purchase)
          s.log)
      (run (node_that true) config (λ s. 0) purchase opened)
run-Recorded_example = run-Recorded (node_that true) config (λ s. 0) purchase 0

executions-IsHistory_example :
    Ends
      (λ _. Unit)
      (λ rows _. IsHistory (node_that false) config 9 rows)
      (executions (node_that false) config 9 opened)
executions-IsHistory_example = executions-IsHistory (node_that false) config 9 opened

minimum_example : minimum 999 (pos 100) ≡ pos 989
unfolding minimum
minimum_example = refl

abbrev printer : Printer
printer = record { decimal = λ n. (48 + n) ∷ []; hex = λ n. 48 ∷ 120 ∷ n ∷ [] }

-- a title with a formula, a quotation mark and a comma in it
abbrev bought : Execution
bought = record {
  statement_id = 70;
  title = some "=a\"b,c";
  pool = 51;
  side = 0;
  direction = buys;
  actor = 9;
  transaction = 1;
  block = 2;
  log_index = 0;
  timestamp = 7;
  amount_in = 8;
  input_asset = none;
  amount_out = 6;
  output_asset = some 0;
  nominal_fee_input = 0;
  t_amount = 8;
  outcome_amount = 6;
}

read_csv-executions_csv_example :
    read_csv (executions_csv printer (bought ∷ bought ∷ []))
    ≡ columns ∷ cells_of printer (bought ∷ bought ∷ [])
read_csv-executions_csv_example = read_csv-executions_csv printer (bought ∷ bought ∷ [])

executions_csv-AllInert_example :
    All (All IsInert) (read_csv (executions_csv printer (bought ∷ [])))
executions_csv-AllInert_example = executions_csv-AllInert printer (bought ∷ [])

title_cell : quoted (codes "=a\"b,c") ≡ codes "\"'=a\"\"b,c\""
unfolding quoted
title_cell = refl

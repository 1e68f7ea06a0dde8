-- ===== src/Exchange/Trading.antt =====
-- index.mjs: what is true of the rows of `executions`.
use mathlib.Core.List.{Perm}
use oncm.Prelude.{
  ℕ, ◌≤◌, ◌<◌, ◌≡◌, ◌≢◌, refl, sym, subst, ◌∙◌, ◌⊎◌, inl, inr, Bool, true, false, Option, none,
  some, List, [], ◌∷◌, ◌++◌, All, ◌==◌, ==_iff, get_elem?, Bool-cases, Result, ok, throw, arith,
}
use oncm.Prelude.Sort.{sort, sort-perm, IsSorted, sort-IsSorted}
use oncm.Prelude.Acting.{
  done, some_or, ◌>>=◌, Ends, Ensures, Ensures-then, Ensures-weaken, Ensures-given,
}
use oncm.Exchange.Chain.{Error, no_pair, SwapLog, Session, Act, Node, Config, read}
use oncm.Exchange.Markets.{Market, markets}
use oncm.Exchange.History.{
  Execution, execution_of, is_before, row_of_log, rows_of_logs, rows_of_side, rows_of_markets,
  executions,
}
use oncm.Exchange.Swapped.{IsTradeOf, not_equal, execution-IsTradeOf}

-- What is known of the value of an action.
abbrev Gives : {A : Type 0} → (A → Type 0) → Act A → Type 0
Gives Q m = Ensures (λ _. Unit) (λ _. Unit) (λ a _. Q a) m

Gives-any : {A : Type 0} (m : Act A) → Gives (λ _. Unit) m
Gives-any m = record { ensures = λ s _. any (m s) }
  where
    any : {A : Type 0} (p : Session × Result Error A) → Ends (λ _. Unit) (λ _ _. Unit) p
    any (s, throw e) = tt
    any (s, ok a) = tt

Gives-then :
    {A B : Type 0} {R : A → Type 0} {Q : B → Type 0} {m : Act A} {f : A → Act B}
    → Gives R m
    → ((a : A) → R a → Gives Q (f a))
    → Gives Q (m >>= f)
Gives-then {R = R} h k =
    Ensures-then (Ensures-weaken (λ s p. p) (λ a s r. (tt, r)) h)
      (λ a. Ensures-given {P = λ _. Unit} (k a))

Gives-done : {A : Type 0} {Q : A → Type 0} {a : A} → Q a → Gives Q (done a)
Gives-done q = record { ensures = λ s p. q }

Gives-weaken :
    {A : Type 0} {Q Q' : A → Type 0} {m : Act A} → ((a : A) → Q a → Q' a) → Gives Q m → Gives Q' m
Gives-weaken f h = Ensures-weaken (λ s p. p) (λ a s q. f a q) h

Gives-some : {A : Type 0} (e : Error) (o : Option A) → Gives (λ a. o ≡ some a) (some_or e o)
Gives-some e none = record { ensures = λ s p. tt }
Gives-some e (some a) = record { ensures = λ s p. refl }

Gives-read : {A : Type 0} (f : Session → A) → Gives (λ a. (s : Session) × (a ≡ f s)) (read f)
unfolding read
Gives-read f = record { ensures = λ s p. (s, refl) }

-- The value is one that the action has.
Gives-value : {A : Type 0} (m : Act A) → Gives (λ a. (s : Session) × ((m s).1 ≡ ok a)) m
Gives-value {A} m = record { ensures = λ s _. own s (m s) refl }
  where
    own :
        (s : Session) (p : Session × Result Error A)
        → (m s).1 ≡ p.1
        → Ends (λ _. Unit) (λ a _. (s : Session) × ((m s).1 ≡ ok a)) p
    own s (t, throw e) h = tt
    own s (t, ok a) h = (s, h)

module _ (node : Node) (config : Config) (address : ℕ) where
  -- A row where the wallet has sent the transaction of a log, and none where it has not.
  abbrev pub LogRow : Market → ℕ → ℕ → SwapLog → List Execution → Type 0
  LogRow m side pair log row =
      ((s : Session) × (node.sender s log.transaction ≢ address) × (row ≡ []))
      ⊎ ((s : Session) × (r : Execution) × (node.sender s log.transaction ≡ address)
          × (r.actor ≡ address)
          × IsTradeOf node config m side pair log r
          × (row ≡ r ∷ []))

  -- The rows of the logs, in their order.
  abbrev pub LogRows : Market → ℕ → ℕ → List SwapLog → List Execution → Type 0
  LogRows m side pair [] rows = rows ≡ []
  LogRows m side pair (log ∷ logs) rows =
      (row rest : List Execution) × LogRow m side pair log row
      × LogRows m side pair logs rest
      × (rows ≡ row ++ rest)

  -- The rows of all swaps that the pair of a side has logged.
  abbrev pub SideRows : Market → ℕ → List Execution → Type 0
  SideRows m side rows =
      (pair : ℕ) × (s : Session) × (get_elem? m.pairs side ≡ some pair)
      × LogRows m side pair (node.swaps s pair) rows

  abbrev pub MarketRows : List Market → List Execution → Type 0
  MarketRows [] rows = rows ≡ []
  MarketRows (m ∷ ms) rows =
      (first second rest : List Execution) × SideRows m 0 first
      × SideRows m 1 second
      × MarketRows ms rest
      × (rows ≡ first ++ (second ++ rest))

  -- The later block, in a block the later log, and then the hash.
  abbrev pub Later : Execution → Execution → Type 0
  Later a b =
      (b.block < a.block)
      ⊎ ((a.block ≡ b.block)
          × ((b.log_index < a.log_index)
              ⊎ ((a.log_index ≡ b.log_index) × (a.transaction ≤ b.transaction))))

  abbrev pub InOrder : List Execution → Type 0
  InOrder [] = Unit
  InOrder (a ∷ rows) = All (Later a) rows × InOrder rows

  -- The rows of all swaps of all markets that the wallet has sent, each once, in order.
  abbrev pub IsHistory : List Execution → Type 0
  IsHistory rows =
      (ms : List Market) × (found : List Execution) × ((s : Session) × ((markets node config s).1
          ≡ ok ms))
      × MarketRows ms found
      × Perm rows found
      × InOrder rows

  execution-actor :
      (m : Market) (side pair : ℕ) (t_first : Bool) (log : SwapLog) (actor time : ℕ)
      → (execution_of m side pair t_first log actor time).actor ≡ actor
  unfolding execution_of
  execution-actor m side pair t_first log actor time = refl

  row-Gives :
      (m : Market) (side pair token0 : ℕ) (log : SwapLog)
      → ((s : Session) × (token0 ≡ node.first_token s pair))
      → Gives
          (LogRow m side pair log)
          (row_of_log node config address m side pair (token0 == config.token) log)
  unfolding row_of_log
  row-Gives m side pair token0 log first = Gives-then (Gives-read _) (λ actor (s, sent).
      elim (Bool-cases (actor == address)) [
        | inr e ↦ rw e (Gives-done (inl (s, (λ p. not_equal actor address (sent ∙ p) e), refl)))
        | inl e ↦
            let own : actor ≡ address = (==_iff actor address).0 e in
            rw e (
              Gives-then (Gives-read _) (λ time clock. Gives-done (
                inr (
                  s,
                  execution_of m side pair (token0 == config.token) log actor time,
                  sym sent ∙ own,
                  execution-actor m side pair (token0 == config.token) log actor time ∙ own,
                  execution-IsTradeOf node config m side pair log actor time token0 first clock,
                  refl,
                ))))
      ])

  rows_of_logs-Gives :
      (m : Market) (side pair token0 : ℕ) (logs : List SwapLog)
      → ((s : Session) × (token0 ≡ node.first_token s pair))
      → Gives
          (LogRows m side pair logs)
          (rows_of_logs node config address m side pair (token0 == config.token) logs)
  unfolding rows_of_logs
  rows_of_logs-Gives m side pair token0 [] first = Gives-done refl
  rows_of_logs-Gives m side pair token0 (log ∷ logs) first =
      Gives-then (row-Gives m side pair token0 log first) (λ row h.
        Gives-then (rows_of_logs-Gives m side pair token0 logs first)
          (λ rest k. Gives-done (row, rest, h, k, refl)))

  rows_of_side-Gives :
      (m : Market) (side : ℕ) → Gives (SideRows m side) (rows_of_side node config address m side)
  unfolding rows_of_side
  rows_of_side-Gives m side =
      Gives-then (Gives-some no_pair (get_elem? m.pairs side)) (λ pair known.
        Gives-then (Gives-read _) (λ token0 first. Gives-then (Gives-read _) (λ logs (s, logged).
          Gives-weaken
            (λ rows k. (pair, s, known, subst (λ u. LogRows m side pair u rows) logged k))
            (rows_of_logs-Gives m side pair token0 logs first))))

  rows_of_markets-Gives :
      (ms : List Market) → Gives (MarketRows ms) (rows_of_markets node config address ms)
  unfolding rows_of_markets
  rows_of_markets-Gives [] = Gives-done refl
  rows_of_markets-Gives (m ∷ ms) = Gives-then (rows_of_side-Gives m 0) (λ first h.
      Gives-then (rows_of_side-Gives m 1) (λ second k.
        Gives-then (rows_of_markets-Gives ms)
          (λ rest l. Gives-done (first, second, rest, h, k, l, refl))))

  before_trans :
      (a b d : Execution) → is_before a b ≡ true → is_before b d ≡ true → is_before a d ≡ true
  unfolding is_before
  before_trans a b d h k = ground arith

  before_total : (a b : Execution) → is_before a b ≡ false → is_before b a ≡ true
  unfolding is_before
  before_total a b h = ground arith

  before-Later : (a b : Execution) → is_before a b ≡ true → Later a b
  unfolding is_before
  before-Later a b h = ground arith

  IsSorted-InOrder : (rows : List Execution) → IsSorted is_before rows → InOrder rows
  IsSorted-InOrder [] h = tt
  IsSorted-InOrder (a ∷ rows) h = (each rows h.0, IsSorted-InOrder rows h.1)
    where
      each : (bs : List Execution) → All (λ b. is_before a b ≡ true) bs → All (Later a) bs
      each [] k = tt
      each (b ∷ bs) k = (before-Later a b k.0, each bs k.1)

  executions-Gives : Gives IsHistory (executions node config address)
  unfolding executions
  executions-Gives = Gives-then (Gives-value (markets node config)) (λ ms told.
      Gives-then (rows_of_markets-Gives ms) (λ rows h. Gives-done (
        ms,
        rows,
        told,
        h,
        sort-perm is_before rows,
        IsSorted-InOrder (sort is_before rows)
            (sort-IsSorted is_before before_trans before_total rows),
      )))

-- The history of a wallet has one row for every swap of every market and side whose transaction the wallet sent, and no other. A row has
-- the market, the pair, the transaction and the time of its swap, what was paid and got in its direction, by which of the tokens of the
-- pair is T, and its fee, which is 0.3 % rounded down; the rows are in order, the latest block first, in a block the latest log, and then
-- by hash.
pub executions-IsHistory :
    (node : Node) (config : Config) (address : ℕ) (s : Session)
    → Ends
        (λ _. Unit)
        (λ rows _. IsHistory node config address rows)
        (executions node config address s)
executions-IsHistory node config address s = (executions-Gives node config address).ensures s tt

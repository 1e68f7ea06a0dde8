-- ===== src/Exchange/Chain.antt =====
-- index.mjs, `guard`, `tx`, `approve`, `v2Send` and `deadline`: how a transaction is sent and reported. What the node, the wallet and the
-- contracts answer are parameters; an address, a hash and the bytes of a call are numbers, and a metadata text is what it is written as.
use oncm.Prelude.{
  ℕ, ◌+◌, ◌*◌, ◌/◌, Bool, Option, none, some, String, List, ◌∷◌, ltb, ◌==◌, if◌then◌else◌, ok,
  throw,
}
use oncm.Prelude.Int.{ℤ}
use oncm.Prelude.Acting
use oncm.Prelude.Acting.{done, check, some_or, ◌>>=◌, ◌>>◌}

pub data Error : Type 0 where
  stale wrong_network no_wallet refused reverted changed not_ready no_block invalid_outcome
        no_answer no_pair form_changed :
      Error

-- The calls of contracts that are sent as transactions, with the limit on their gas where the code gives one.
pub data Action : Type 0 where
  erc20_approve : ℕ → ℕ → ℕ → Action
  protocol_create_math : ℕ → ℕ → String → ℕ → Action
  protocol_create_operator : ℕ → ℕ → String → Action
  protocol_create_derived : ℕ → ℕ → ℕ → ℕ → String → Action
  router_split : ℕ → ℕ → ℕ → Action
  router_merge : ℕ → ℕ → ℕ → Action
  router_redeem : ℕ → ℕ → List ℕ → List ℕ → Action
  v2_swap : ℕ → ℕ → ℕ × ℕ → ℕ → ℕ → Action
  v2_add : ℕ → ℕ → ℕ → ℕ → ℤ → ℤ → ℕ → ℕ → Action
  v2_remove : ℕ → ℕ → ℕ → ℕ → ℕ → ℕ → ℕ → Action
  protocol_resolve_proof : ℕ → ℕ → ℕ → Action
  protocol_resolve_derived : ℕ → Action
  arbitrage_execute : ℕ → ℕ → ℤ → ℕ → Action
  token_delegate : ℕ → Action
  governor_propose : List ℕ → List ℕ → List ℕ → String → Action
  governor_cancel : List ℕ → List ℕ → List ℕ → ℕ → Action
  governor_vote : ℕ → ℕ → Action
  governor_queue : List ℕ → List ℕ → List ℕ → ℕ → Action
  governor_execute : List ℕ → List ℕ → List ℕ → ℕ → Action
  allocation_propose : List ℕ → List ℕ → Action
  allocation_consent : ℕ → Bool → Action
  allocation_apply : ℕ → Action
  allocation_collect : ℕ → Action
  allocation_distribute : ℕ → ℕ → Action
  warehouse_withdraw : ℕ → ℕ → Action

-- What a transaction is called: a text, or the approval of an amount of a token with a symbol.
pub data Label : Type 0 where
  named : String → Label
  approval : ℕ → String → Label

pub data Status : Type 0 where
  submitted confirmed : Status

-- A transaction that was sent, with the moment at which the network was checked, its limit on gas and its hash; or a call of `onTx`, without the block of the receipt.
pub data Event : Type 0 where
  sends : ℕ → Action → Option ℕ → ℕ → Event
  tells : Status → Label → ℕ → Event

-- Each question is a moment of its own. `log` has the latest event first.
pub record Session : Type 0 where
  pub moment : ℕ
  pub log : List Event

abbrev pub Act : Type 0 → Type 0
Act A = Acting.Act Session Error A

-- A call to send, with the limit on its gas.
abbrev pub Call : Type 0
Call = Action × Option ℕ

-- What the protocol says of a statement; `is_known`: its market has an address.
pub record Statement : Type 0 where
  pub goal : ℕ
  pub profile : ℕ
  pub dependency : ℕ
  pub deadline : ℕ
  pub resolved_at : ℕ
  pub kind : ℕ
  pub target_outcome : ℕ
  pub outcome : ℕ
  pub market : ℕ
  pub is_known : Bool
  pub creator : ℕ
  pub metadata : String

-- A `Swap` of a pair: amounts of the first and of the second token, in and out.
pub record SwapLog : Type 0 where
  pub transaction : ℕ
  pub block : ℕ
  pub index : ℕ
  pub amount_in : ℕ × ℕ
  pub amount_out : ℕ × ℕ

-- What the title and the rest of a statement's metadata are, where its text is JSON.
pub record Metadata : Type 0 where
  pub title : Option String
  pub rest : Option ℕ

-- What is answered, at a moment and after what was sent. `estimate`, `accepts` and `quote_out` have none where the call fails.
pub record Node : Type 0 where
  pub is_current : Session → Bool
  pub chain_id : ℕ → ℕ
  pub user : Session → Option ℕ
  pub accepts : Session → Action → Option ℕ → Option ℕ
  pub confirms : Session → ℕ → Bool
  pub estimate : Session → Action → Option ℕ
  pub allowance : Session → ℕ → ℕ → ℕ → ℕ
  pub symbol : Session → ℕ → String
  pub timestamp : Session → ℕ
  pub block_number : Session → Option ℕ
  pub count : Session → ℕ
  pub statement_id : Session → ℕ → ℕ
  pub statement : Session → ℕ → Statement
  pub outcome_token : Session → ℕ → ℕ → ℕ
  pub pair : Session → ℕ → ℕ → ℕ
  pub derived_outcome : Session → ℕ → ℕ
  pub quote_out : Session → ℕ → ℕ × ℕ → Option ℕ
  pub balance : Session → ℕ → ℕ → ℕ
  pub reserves : Session → ℕ → ℕ × ℕ
  pub first_token : Session → ℕ → ℕ
  pub supply : Session → ℕ → ℕ
  pub swaps : Session → ℕ → List SwapLog
  pub sender : Session → ℕ → ℕ
  pub block_time : Session → ℕ → ℕ
  pub parse : String → Option Metadata
  pub draft_is_current : Session → Bool

-- The addresses of a deployment, and whether a wallet is connected.
pub record Config : Type 0 where
  pub token : ℕ
  pub router : ℕ
  pub v2_router : ℕ
  pub arbitrage : ℕ
  pub allocation : ℕ
  pub has_signer : Bool

unfoldable pub read : {A : Type 0} → (Session → A) → Act A
read f s = (record s { moment = s.moment + 1 }, ok (f s))

module _ (node : Node) (config : Config) where
  -- `this.assertCurrent?.()`
  unfoldable pub assert_current : Act (Unit {0})
  assert_current = read node.is_current >>= λ b. check b stale

  -- the network's test, with its moment
  unfoldable pub check_chain : Act ℕ
  check_chain s =
      if node.chain_id s.moment == 31372
      then (record s { moment = s.moment + 1 }, ok s.moment)
      else (record s { moment = s.moment + 1 }, throw wrong_network)

  unfoldable pub guard : Act ℕ
  unfolding assert_current check_chain
  guard = do
    assert_current
    t ← check_chain
    assert_current
    check config.has_signer no_wallet
    done t

  unfoldable pub submit_call : ℕ → Call → Act ℕ
  submit_call t (a, gas) s =
      let after = record s { moment = s.moment + 1 } in
      elim (node.accepts s a gas) [
        | none ↦ (after, throw refused)
        | some h ↦ (record after { log = sends t a gas h ∷ s.log }, ok h)
      ]

  unfoldable pub tell : Status → Label → ℕ → Act (Unit {0})
  tell status label h s = (record s { log = tells status label h ∷ s.log }, ok tt)

  -- `t.wait()`, which rejects for a transaction that has failed
  unfoldable pub wait : ℕ → Act (Unit {0})
  wait h = read (λ s. node.confirms s h) >>= λ b. check b reverted

  -- `promise` is what the function that is given computes before it sends.
  unfoldable pub tx : Label → Act Call → Act (Unit {0})
  unfolding guard submit_call tell wait
  tx label promise = do
    t ← guard
    call ← promise
    h ← submit_call t call
    tell submitted label h
    wait h
    tell confirmed label h

  unfoldable pub tx_plain : String → Action → Act (Unit {0})
  unfolding tx
  tx_plain text a = tx (named text) (done (a, none))

  -- `this.signer.getAddress()`
  unfoldable pub get_address : Act ℕ
  get_address = read node.user >>= some_or no_wallet

  unfoldable pub approve : ℕ → ℕ → ℕ → Act (Unit {0})
  unfolding guard get_address tx
  approve address spender amount = do
    _ ← guard
    owner ← get_address
    allowed ← read (λ s. node.allowance s owner address spender)
    if ltb allowed amount
        then (read (λ s. node.symbol s address) >>= λ symbol.
            tx (approval amount symbol) (done (erc20_approve address spender amount, none)))
        else done tt

  -- `v2Send`, and the end of `arbitrage`: three tenths more than the estimate, and some more
  unfoldable pub with_gas : ℕ → Action → Act Call
  with_gas more a = do
    answer ← read (λ s. node.estimate s a)
    gas ← some_or no_answer answer
    done (a, some (gas * 130 / 100 + more))

  unfoldable pub v2_send : Action → Act Call
  unfolding with_gas
  v2_send a = with_gas 20000 a

  unfoldable pub deadline : Act ℕ
  deadline = read node.timestamp >>= λ now. done (now + 300)

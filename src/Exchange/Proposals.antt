-- ===== src/Exchange/Proposals.antt =====
-- index.mjs: voting, proposals and the allocation of fees of `ExchangeSDK`. A description is a text, with its hash as a parameter.
use oncm.Prelude.{ℕ, Bool, true, false, none, String, List, map, leb}
use oncm.Prelude.Sort.{sort}
use oncm.Prelude.Acting.{done, check, ◌>>=◌, ◌>>◌}
use oncm.Exchange.Chain.{
  form_changed, token_delegate, governor_propose, governor_cancel, governor_vote, governor_queue,
  governor_execute, allocation_propose, allocation_consent, allocation_apply, allocation_collect,
  allocation_distribute, warehouse_withdraw, named, Act, Node, Config, read, tx, tx_plain,
  get_address,
}

pub record Proposal : Type 0 where
  pub targets : List ℕ
  pub values : List ℕ
  pub calldatas : List ℕ
  pub description : String

pub record Share : Type 0 where
  pub address : ℕ
  pub share : ℕ

-- Addresses in small letters have the order of their numbers.
abbrev pub is_before : Share → Share → Bool
is_before a b = leb a.address b.address

module _ (node : Node) (config : Config) (keccak : String → ℕ) where
  unfoldable pub delegate : Act (Unit {0})
  unfolding get_address tx
  delegate =
      tx node config (named "Delegate T voting power")
        (get_address node config >>= λ who. done (token_delegate who, none))

  unfoldable pub propose : Proposal → Act (Unit {0})
  unfolding tx_plain
  propose p =
      tx_plain node config "Create governance proposal"
        (governor_propose p.targets p.values p.calldatas p.description)

  unfoldable pub cancel_proposal : Proposal → Act (Unit {0})
  unfolding tx_plain
  cancel_proposal p =
      tx_plain node config "Cancel pending proposal"
        (governor_cancel p.targets p.values p.calldatas (keccak p.description))

  unfoldable pub vote : ℕ → ℕ → Act (Unit {0})
  unfolding tx_plain
  vote id support = tx_plain node config "Vote on governance proposal" (governor_vote id support)

  unfoldable pub queue : Proposal → Act (Unit {0})
  unfolding tx_plain
  queue p =
      tx_plain node config "Queue proposal"
        (governor_queue p.targets p.values p.calldatas (keccak p.description))

  unfoldable pub execute : Proposal → Act (Unit {0})
  unfolding tx_plain
  execute p =
      tx_plain node config "Execute proposal"
        (governor_execute p.targets p.values p.calldatas (keccak p.description))

  -- `assertFormCurrent()`
  unfoldable pub form_current : Act (Unit {0})
  form_current = read node.draft_is_current >>= λ b. check b form_changed

  unfoldable pub propose_allocation : List Share → Act (Unit {0})
  unfolding form_current tx sort
  propose_allocation rows =
      let sorted = sort is_before rows in
      tx node config (named "Propose fee allocation") (
        form_current
        >> done
            (allocation_propose (map (λ r. r.address) sorted) (map (λ r. r.share) sorted), none))

  abbrev pub consent_name : Bool → String
  consent_name true = "Consent to reduction"
  consent_name false = "Revoke consent"

  unfoldable pub consent : ℕ → Bool → Act (Unit {0})
  unfolding tx_plain
  consent id value = tx_plain node config (consent_name value) (allocation_consent id value)

  unfoldable pub apply_allocation : ℕ → Act (Unit {0})
  unfolding tx_plain
  apply_allocation id = tx_plain node config "Apply allocation" (allocation_apply id)

  unfoldable pub collect : ℕ → Act (Unit {0})
  unfolding tx_plain
  collect asset = tx_plain node config "Collect received protocol LP" (allocation_collect asset)

  unfoldable pub distribute : ℕ → ℕ → Act (Unit {0})
  unfolding tx_plain
  distribute epoch asset =
      tx_plain node config "Distribute epoch income" (allocation_distribute epoch asset)

  unfoldable pub withdraw : ℕ → Act (Unit {0})
  unfolding get_address tx
  withdraw asset =
      tx node config (named "Withdraw warehouse balance")
        (get_address node config >>= λ who. done (warehouse_withdraw who asset, none))

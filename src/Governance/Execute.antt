-- ===== src/Governance/Execute.antt =====
-- programs/governance/src/instructions/execute.rs: what its instructions share, and the signalling
-- action. An instruction that calls another program passes on the clock of the transaction.
pub mod Treasury
pub mod Staking
pub mod Token
pub mod Realm
pub mod Mandate
pub mod TokenMandate
pub mod Gate
pub mod Choice
mod Tests
use helix_protocol.Prelude.{ℕ, Bool, true, false, Option, some, none, List, [], ◌∷◌}
use helix_protocol.Prelude.Int.{ℤ}
use helix_protocol.Prelude.Fallible.{ok, ◌>>=◌, ◌>>◌, require, constraint, constraint_seeds, ok_or}
use helix_protocol.Anchor.{Pubkey, Seed, helix_governance, Runtime, derives}
use helix_protocol.Governance.Types.{
  Proposal, ProposalAction, executor_seed, action_account_mismatch,
}
use helix_protocol.Governance.State.{Fallible, authorize_execution}
use helix_protocol.Governance.Proposals.{ProposalAccounts, check_proposal}
use helix_protocol.Governance.Events.{ProposalExecuted}

abbrev pub executor_seeds : Pubkey → List Seed
executor_seeds realm = executor_seed ∷ Seed.key realm ∷ []

-- The accounts that every `Execute…` struct of execute.rs and execute_token.rs begins with.
pub record ExecuteAccounts : Type 0 where
  pub on : ProposalAccounts
  pub executor : Pubkey

-- Their constraints.
unfoldable pub check_execute : Runtime → ExecuteAccounts → Fallible (Unit {0})
unfolding check_proposal
check_execute R a = do
  check_proposal R a.on
  constraint
      (derives R (executor_seeds a.on.realm_key) a.on.realm.executor_bump helix_governance
        a.executor)
      constraint_seeds

-- The event that every execution emits at its end.
abbrev pub executed_event : ProposalAccounts → Proposal → ℤ → ProposalExecuted
executed_event a p now = record { proposal = a.proposal_key; action = p.action; timestamp = now }

-- `matches!(action, ProposalAction::Signal)`.
unfoldable pub is_signal : ProposalAction → Bool
is_signal ProposalAction.signal = true
is_signal _ = false

-- The instruction `execute_signal`, with the constraints of its accounts.
unfoldable pub execute_signal :
    Runtime → ProposalAccounts → ℤ → Fallible (Proposal × ProposalExecuted)
unfolding check_proposal is_signal
execute_signal R a now = do
  check_proposal R a
  require (is_signal a.proposal.action) action_account_mismatch
  p ← authorize_execution a.proposal now
  ok (p, executed_event a p now)

-- ===== src/Governance/Execute/Treasury.antt =====
-- programs/governance/src/instructions/execute.rs: the actions on the treasury.
use helix_protocol.Prelude.{ℕ, Bool, Option, some, none, ◌==◌}
use helix_protocol.Prelude.Int.{ℤ}
use helix_protocol.Prelude.Fallible.{ok, ◌>>=◌, ◌>>◌, require, ok_or, call}
use helix_protocol.Anchor.{Pubkey, Runtime, Mint, TokenAccount, TokenProgram}
use helix_protocol.Treasury.Types.{Treasury, VestingStream}
use helix_protocol.Treasury.Events.{SpendCapChanged, GovernanceExecutorChanged}
use helix_protocol.Treasury.Funds.{
  SpendAccounts, SpendOutcome, spend, GovernanceOnly, set_spend_cap, set_governance_executor,
}
use helix_protocol.Treasury.Vesting.{
  CreateStreamAccounts, CreateStreamOutcome, create_stream, RevokeStreamAccounts,
  RevokeStreamOutcome, revoke_stream,
}
use helix_protocol.Governance.Types.{Proposal, ProposalAction, action_account_mismatch}
use helix_protocol.Governance.State.{Fallible, authorize_execution}
use helix_protocol.Governance.Events.{ProposalExecuted}
use helix_protocol.Governance.Execute.{ExecuteAccounts, check_execute, executed_event}

-- The accounts of `ExecuteTreasuryTransfer`.
pub record ExecuteTreasuryTransferAccounts : Type 0 where
  pub base : ExecuteAccounts
  pub treasury_key : Pubkey
  pub treasury : Treasury
  pub treasury_mint : Mint
  pub treasury_vault : TokenAccount
  pub destination : TokenAccount
  pub treasury_vault_authority : Pubkey
  pub token_program : Pubkey

-- The accounts that are passed on to `helix_treasury::cpi::spend`.
abbrev pub spend_accounts : ExecuteTreasuryTransferAccounts → SpendAccounts
spend_accounts a = record {
  treasury_key = a.treasury_key;
  treasury = a.treasury;
  governance_executor = a.base.executor;
  mint = a.treasury_mint;
  vault = a.treasury_vault;
  destination = a.destination;
  vault_authority = a.treasury_vault_authority;
  token_program = a.token_program;
}

-- The action that `execute_treasury_transfer` matches.
unfoldable pub treasury_transfer_of : ProposalAction → Option (Pubkey × ℕ)
treasury_transfer_of (ProposalAction.treasury_transfer destination amount) =
    some (destination, amount)
treasury_transfer_of _ = none

-- The instruction `execute_treasury_transfer`.
unfoldable pub execute_treasury_transfer :
    Runtime
    → TokenProgram
    → ExecuteTreasuryTransferAccounts
    → ℤ
    → Fallible (Proposal × SpendOutcome × ProposalExecuted)
unfolding check_execute treasury_transfer_of
execute_treasury_transfer R T a now = do
  let on = a.base.on
  check_execute R a.base
  (destination, amount) ← ok_or (treasury_transfer_of on.proposal.action) action_account_mismatch
  require (a.destination.key == destination) action_account_mismatch
  p ← authorize_execution on.proposal now
  out ← call (spend R T (spend_accounts a) now amount)
  ok (p, out, executed_event on p now)

-- The accounts of `ExecuteCreateVestingStream`.
pub record ExecuteCreateVestingStreamAccounts : Type 0 where
  pub base : ExecuteAccounts
  pub treasury_key : Pubkey
  pub treasury : Treasury
  pub beneficiary : Pubkey
  pub stream_key : Pubkey
  pub stream_in_use : Bool
  pub treasury_vault : TokenAccount

-- The accounts that are passed on to `helix_treasury::cpi::create_stream`.
abbrev pub create_stream_accounts : ExecuteCreateVestingStreamAccounts → CreateStreamAccounts
create_stream_accounts a = record {
  treasury_key = a.treasury_key;
  treasury = a.treasury;
  governance_executor = a.base.executor;
  beneficiary = a.beneficiary;
  stream_key = a.stream_key;
  stream_in_use = a.stream_in_use;
  vault = a.treasury_vault;
}

-- The terms of a stream that a proposal names.
pub record StreamTerms : Type 0 where
  pub beneficiary : Pubkey
  pub total_amount : ℕ
  pub start_ts : ℤ
  pub cliff_ts : ℤ
  pub end_ts : ℤ

-- The action that `execute_create_vesting_stream` matches.
unfoldable pub create_vesting_stream_of : ProposalAction → Option StreamTerms
create_vesting_stream_of (ProposalAction.create_vesting_stream beneficiary total start cliff end) =
    some (record {
      beneficiary = beneficiary;
      total_amount = total;
      start_ts = start;
      cliff_ts = cliff;
      end_ts = end;
    })
create_vesting_stream_of _ = none

-- The instruction `execute_create_vesting_stream`.
unfoldable pub execute_create_vesting_stream :
    Runtime
    → ExecuteCreateVestingStreamAccounts
    → ℤ
    → ℕ
    → Fallible (Proposal × CreateStreamOutcome × ProposalExecuted)
unfolding check_execute create_vesting_stream_of
execute_create_vesting_stream R a now stream_id = do
  let on = a.base.on
  check_execute R a.base
  terms ← ok_or (create_vesting_stream_of on.proposal.action) action_account_mismatch
  require (a.beneficiary == terms.beneficiary) action_account_mismatch
  p ← authorize_execution on.proposal now
  out ← call (
      create_stream R (create_stream_accounts a) now stream_id terms.total_amount terms.start_ts
        terms.cliff_ts terms.end_ts)
  ok (p, out, executed_event on p now)

-- The accounts of `ExecuteRevokeVestingStream`.
pub record ExecuteRevokeVestingStreamAccounts : Type 0 where
  pub base : ExecuteAccounts
  pub treasury_key : Pubkey
  pub treasury : Treasury
  pub stream_key : Pubkey
  pub stream : VestingStream

-- The accounts that are passed on to `helix_treasury::cpi::revoke_stream`.
abbrev pub revoke_stream_accounts : ExecuteRevokeVestingStreamAccounts → RevokeStreamAccounts
revoke_stream_accounts a = record {
  treasury_key = a.treasury_key;
  treasury = a.treasury;
  governance_executor = a.base.executor;
  stream_key = a.stream_key;
  stream = a.stream;
}

-- The action that `execute_revoke_vesting_stream` matches.
unfoldable pub revoke_vesting_stream_of : ProposalAction → Option ℕ
revoke_vesting_stream_of (ProposalAction.revoke_vesting_stream stream_id) = some stream_id
revoke_vesting_stream_of _ = none

-- The instruction `execute_revoke_vesting_stream`.
unfoldable pub execute_revoke_vesting_stream :
    Runtime
    → ExecuteRevokeVestingStreamAccounts
    → ℤ
    → Fallible (Proposal × RevokeStreamOutcome × ProposalExecuted)
unfolding check_execute revoke_vesting_stream_of
execute_revoke_vesting_stream R a now = do
  let on = a.base.on
  check_execute R a.base
  stream_id ← ok_or (revoke_vesting_stream_of on.proposal.action) action_account_mismatch
  require (a.stream.stream_id == stream_id) action_account_mismatch
  p ← authorize_execution on.proposal now
  out ← call (revoke_stream R (revoke_stream_accounts a) now)
  ok (p, out, executed_event on p now)

-- The accounts of `ExecuteTreasuryConfig`.
pub record ExecuteTreasuryConfigAccounts : Type 0 where
  pub base : ExecuteAccounts
  pub treasury_key : Pubkey
  pub treasury : Treasury

-- `ExecuteTreasuryConfig::cpi_accounts`.
abbrev pub cpi_accounts : ExecuteTreasuryConfigAccounts → GovernanceOnly
cpi_accounts a = record {
  treasury_key = a.treasury_key;
  treasury = a.treasury;
  governance_executor = a.base.executor;
}

-- The action that `execute_set_treasury_spend_cap` matches.
unfoldable pub set_treasury_spend_cap_of : ProposalAction → Option (ℕ × ℤ)
set_treasury_spend_cap_of (ProposalAction.set_treasury_spend_cap new_cap epoch_duration) =
    some (new_cap, epoch_duration)
set_treasury_spend_cap_of _ = none

-- The instruction `execute_set_treasury_spend_cap`.
unfoldable pub execute_set_treasury_spend_cap :
    Runtime
    → ExecuteTreasuryConfigAccounts
    → ℤ
    → Fallible (Proposal × (Treasury × SpendCapChanged) × ProposalExecuted)
unfolding check_execute set_treasury_spend_cap_of
execute_set_treasury_spend_cap R a now = do
  let on = a.base.on
  check_execute R a.base
  (new_cap, epoch_duration) ←
      ok_or (set_treasury_spend_cap_of on.proposal.action) action_account_mismatch
  p ← authorize_execution on.proposal now
  out ← call (set_spend_cap R (cpi_accounts a) now new_cap epoch_duration)
  ok (p, out, executed_event on p now)

-- The action that `execute_set_governance_executor` matches.
unfoldable pub set_governance_executor_of : ProposalAction → Option Pubkey
set_governance_executor_of (ProposalAction.set_governance_executor new_executor) = some new_executor
set_governance_executor_of _ = none

-- The instruction `execute_set_governance_executor`.
unfoldable pub execute_set_governance_executor :
    Runtime
    → ExecuteTreasuryConfigAccounts
    → ℤ
    → Fallible (Proposal × (Treasury × GovernanceExecutorChanged) × ProposalExecuted)
unfolding check_execute set_governance_executor_of
execute_set_governance_executor R a now = do
  let on = a.base.on
  check_execute R a.base
  new_executor ← ok_or (set_governance_executor_of on.proposal.action) action_account_mismatch
  p ← authorize_execution on.proposal now
  out ← call (set_governance_executor R (cpi_accounts a) now new_executor)
  ok (p, out, executed_event on p now)

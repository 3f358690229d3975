-- ===== src/Governance/Execute/Token.antt =====
-- programs/governance/src/instructions/execute_token.rs: the actions on the token manager.
use helix_protocol.Prelude.{ℕ, Bool, true, false, Option, some, none}
use helix_protocol.Prelude.Int.{ℤ}
use helix_protocol.Prelude.Fallible.{ok, ◌>>=◌, ◌>>◌, require, ok_or, call}
use helix_protocol.Anchor.{Pubkey, Runtime}
use helix_protocol.TokenManager.Types.{TokenConfig, Minter}
use helix_protocol.TokenManager.Events.{
  MinterRegistered, MinterUpdated, MinterRevoked, AdminTransferProposed, AdminTransferAccepted,
  PauseToggled,
}
use helix_protocol.TokenManager.Registry.{
  ConfigSigner, RegisterMinterAccounts, register_minter, MinterAccounts, update_minter,
  revoke_minter, propose_admin, accept_admin, set_paused,
}
use helix_protocol.Governance.Types.{Proposal, ProposalAction, action_account_mismatch}
use helix_protocol.Governance.State.{Fallible, authorize_execution}
use helix_protocol.Governance.Events.{ProposalExecuted}
use helix_protocol.Governance.Execute.{ExecuteAccounts, check_execute, executed_event}

-- The accounts of `ExecuteTokenAdmin`.
pub record ExecuteTokenAdminAccounts : Type 0 where
  pub base : ExecuteAccounts
  pub token_config_key : Pubkey
  pub token_config : TokenConfig

-- `ExecuteTokenAdmin::admin_only`, and the accounts of `accept_admin`: the executor signs.
abbrev pub admin_only : ExecuteTokenAdminAccounts → ConfigSigner
admin_only a = record {
  config_key = a.token_config_key;
  config = a.token_config;
  signer = a.base.executor;
}

-- `matches!(action, ProposalAction::AcceptTokenManagerAdmin)`.
unfoldable pub is_accept_token_manager_admin : ProposalAction → Bool
is_accept_token_manager_admin ProposalAction.accept_token_manager_admin = true
is_accept_token_manager_admin _ = false

-- The instruction `execute_accept_token_manager_admin`.
unfoldable pub execute_accept_token_manager_admin :
    Runtime
    → ExecuteTokenAdminAccounts
    → ℤ
    → Fallible (Proposal × (TokenConfig × AdminTransferAccepted) × ProposalExecuted)
unfolding check_execute is_accept_token_manager_admin
execute_accept_token_manager_admin R a now = do
  let on = a.base.on
  check_execute R a.base
  require (is_accept_token_manager_admin on.proposal.action) action_account_mismatch
  p ← authorize_execution on.proposal now
  out ← call (accept_admin R (admin_only a) now)
  ok (p, out, executed_event on p now)

-- The action that `execute_set_token_paused` matches.
unfoldable pub set_token_paused_of : ProposalAction → Option Bool
set_token_paused_of (ProposalAction.set_token_paused paused) = some paused
set_token_paused_of _ = none

-- The instruction `execute_set_token_paused`.
unfoldable pub execute_set_token_paused :
    Runtime
    → ExecuteTokenAdminAccounts
    → ℤ
    → Fallible (Proposal × (TokenConfig × PauseToggled) × ProposalExecuted)
unfolding check_execute set_token_paused_of
execute_set_token_paused R a now = do
  let on = a.base.on
  check_execute R a.base
  paused ← ok_or (set_token_paused_of on.proposal.action) action_account_mismatch
  p ← authorize_execution on.proposal now
  out ← call (set_paused R (admin_only a) now paused)
  ok (p, out, executed_event on p now)

-- The action that `execute_propose_token_admin` matches.
unfoldable pub propose_token_admin_of : ProposalAction → Option Pubkey
propose_token_admin_of (ProposalAction.propose_token_admin new_admin) = some new_admin
propose_token_admin_of _ = none

-- The instruction `execute_propose_token_admin`.
unfoldable pub execute_propose_token_admin :
    Runtime
    → ExecuteTokenAdminAccounts
    → ℤ
    → Fallible (Proposal × (TokenConfig × AdminTransferProposed) × ProposalExecuted)
unfolding check_execute propose_token_admin_of
execute_propose_token_admin R a now = do
  let on = a.base.on
  check_execute R a.base
  new_admin ← ok_or (propose_token_admin_of on.proposal.action) action_account_mismatch
  p ← authorize_execution on.proposal now
  out ← call (propose_admin R (admin_only a) now new_admin)
  ok (p, out, executed_event on p now)

-- The accounts of `ExecuteRegisterMinter`.
pub record ExecuteRegisterMinterAccounts : Type 0 where
  pub admin : ExecuteTokenAdminAccounts
  pub minter_key : Pubkey
  pub minter_in_use : Bool

-- The accounts that are passed on to `helix_token_manager::cpi::register_minter`.
abbrev pub register_minter_accounts : ExecuteRegisterMinterAccounts → RegisterMinterAccounts
register_minter_accounts a = record {
  admin = admin_only a.admin;
  minter_key = a.minter_key;
  minter_in_use = a.minter_in_use;
}

-- The action that `execute_register_minter` matches.
unfoldable pub register_minter_of : ProposalAction → Option (Pubkey × ℕ × ℤ)
register_minter_of (ProposalAction.register_minter authority epoch_cap epoch_duration) =
    some (authority, epoch_cap, epoch_duration)
register_minter_of _ = none

-- The instruction `execute_register_minter`.
unfoldable pub execute_register_minter :
    Runtime
    → ExecuteRegisterMinterAccounts
    → ℤ
    → Fallible (Proposal × (TokenConfig × Minter × MinterRegistered) × ProposalExecuted)
unfolding check_execute register_minter_of
execute_register_minter R a now = do
  let on = a.admin.base.on
  check_execute R a.admin.base
  (authority, epoch_cap, epoch_duration) ←
      ok_or (register_minter_of on.proposal.action) action_account_mismatch
  p ← authorize_execution on.proposal now
  out ← call (register_minter R (register_minter_accounts a) now authority epoch_cap epoch_duration)
  ok (p, out, executed_event on p now)

-- The accounts of `ExecuteModifyMinter`.
pub record ExecuteModifyMinterAccounts : Type 0 where
  pub admin : ExecuteTokenAdminAccounts
  pub minter_key : Pubkey
  pub minter : Minter

-- The accounts that are passed on to `update_minter` and `revoke_minter` of the token manager.
abbrev pub minter_accounts : ExecuteModifyMinterAccounts → MinterAccounts
minter_accounts a = record {
  admin = admin_only a.admin;
  minter_key = a.minter_key;
  minter = a.minter;
}

-- The action that `execute_update_minter` matches.
unfoldable pub update_minter_of : ProposalAction → Option (ℕ × Bool)
update_minter_of (ProposalAction.update_minter epoch_cap enabled) = some (epoch_cap, enabled)
update_minter_of _ = none

-- The instruction `execute_update_minter`.
unfoldable pub execute_update_minter :
    Runtime
    → ExecuteModifyMinterAccounts
    → ℤ
    → Fallible (Proposal × (Minter × MinterUpdated) × ProposalExecuted)
unfolding check_execute update_minter_of
execute_update_minter R a now = do
  let on = a.admin.base.on
  check_execute R a.admin.base
  (epoch_cap, enabled) ← ok_or (update_minter_of on.proposal.action) action_account_mismatch
  p ← authorize_execution on.proposal now
  out ← call (update_minter R (minter_accounts a) now epoch_cap enabled)
  ok (p, out, executed_event on p now)

-- `matches!(action, ProposalAction::RevokeMinter)`.
unfoldable pub is_revoke_minter : ProposalAction → Bool
is_revoke_minter ProposalAction.revoke_minter = true
is_revoke_minter _ = false

-- The instruction `execute_revoke_minter`.
unfoldable pub execute_revoke_minter :
    Runtime
    → ExecuteModifyMinterAccounts
    → ℤ
    → Fallible (Proposal × (TokenConfig × Minter × MinterRevoked) × ProposalExecuted)
unfolding check_execute is_revoke_minter
execute_revoke_minter R a now = do
  let on = a.admin.base.on
  check_execute R a.admin.base
  require (is_revoke_minter on.proposal.action) action_account_mismatch
  p ← authorize_execution on.proposal now
  out ← call (revoke_minter R (minter_accounts a) now)
  ok (p, out, executed_event on p now)

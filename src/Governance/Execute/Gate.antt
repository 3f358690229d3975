-- ===== src/Governance/Execute/Gate.antt =====
-- Every execution of a proposal's action, and the gate that they share.
use helix_protocol.Prelude.{ℕ, ◌≡◌, inl, inr, arith}
use helix_protocol.Prelude.Int.{ℤ}
use helix_protocol.Prelude.Fallible.{ok, Result-cases, >>-eq-ok}
use helix_protocol.Anchor.{Runtime, TokenProgram}
use helix_protocol.Treasury.Types.{Treasury}
use helix_protocol.Treasury.Events.{SpendCapChanged, GovernanceExecutorChanged}
use helix_protocol.Treasury.Funds.{SpendOutcome}
use helix_protocol.Treasury.Vesting.{CreateStreamOutcome, RevokeStreamOutcome}
use helix_protocol.Staking.Types.{Pool}
use helix_protocol.Staking.Events.{RewardRateChanged}
use helix_protocol.TokenManager.Types.{TokenConfig, Minter}
use helix_protocol.TokenManager.Events.{
  MinterRegistered, MinterUpdated, MinterRevoked, AdminTransferProposed, AdminTransferAccepted,
  PauseToggled,
}
use helix_protocol.Governance.Types.{Realm, Proposal, action_account_mismatch}
use helix_protocol.Governance.State.{authorize_execution}
use helix_protocol.Governance.Realm.{validate}
use helix_protocol.Governance.Proposals.{ProposalAccounts, check_proposal}
use helix_protocol.Governance.Events.{ProposalExecuted, RealmParamsUpdated, RealmAuthorityChanged}
use helix_protocol.Governance.Execute.{ExecuteAccounts, execute_signal}
use helix_protocol.Governance.Execute.Treasury.{
  ExecuteTreasuryTransferAccounts, ExecuteCreateVestingStreamAccounts,
  ExecuteRevokeVestingStreamAccounts, ExecuteTreasuryConfigAccounts, execute_treasury_transfer,
  execute_create_vesting_stream, execute_revoke_vesting_stream, execute_set_treasury_spend_cap,
  execute_set_governance_executor,
}
use helix_protocol.Governance.Execute.Staking.{
  ExecuteSetStakingRewardRateAccounts, execute_set_staking_reward_rate,
}
use helix_protocol.Governance.Execute.Token.{
  ExecuteTokenAdminAccounts, ExecuteRegisterMinterAccounts, ExecuteModifyMinterAccounts,
  execute_accept_token_manager_admin, execute_set_token_paused, execute_propose_token_admin,
  execute_register_minter, execute_update_minter, execute_revoke_minter,
}
use helix_protocol.Governance.Execute.Realm.{
  check_execute_realm_config, update_realm_params_of, execute_update_realm_params,
  set_realm_authority_of, execute_set_realm_authority,
}
use helix_protocol.Governance.Execute.Mandate.{
  matched, execute_treasury_transfer-Mandated, execute_create_vesting_stream-Mandated,
  execute_revoke_vesting_stream-Mandated, execute_set_treasury_spend_cap-Mandated,
  execute_set_governance_executor-Mandated, execute_set_staking_reward_rate-Mandated,
}
use helix_protocol.Governance.Execute.TokenMandate.{
  execute_accept_token_manager_admin-Mandated, execute_set_token_paused-Mandated,
  execute_propose_token_admin-Mandated, execute_register_minter-Mandated,
  execute_update_minter-Mandated, execute_revoke_minter-Mandated,
}

-- A successful execution at the time `now` of the proposal `p`, which leaves it as `q`.
pub data Execution (R : Runtime) (T : TokenProgram) (now : ℤ) (p q : Proposal) : Type 0 where
  signals :
      (a : ProposalAccounts) (out : Proposal × ProposalExecuted)
      → execute_signal R a now ≡ ok out
      → p ≡ a.proposal
      → q ≡ out.0
      → Execution R T now p q
  transfers :
      (a : ExecuteTreasuryTransferAccounts) (out : Proposal × SpendOutcome × ProposalExecuted)
      → execute_treasury_transfer R T a now ≡ ok out
      → p ≡ a.base.on.proposal
      → q ≡ out.0
      → Execution R T now p q
  creates_stream :
      (a : ExecuteCreateVestingStreamAccounts) (id : ℕ)
      (out : Proposal × CreateStreamOutcome × ProposalExecuted)
      → execute_create_vesting_stream R a now id ≡ ok out
      → p ≡ a.base.on.proposal
      → q ≡ out.0
      → Execution R T now p q
  revokes_stream :
      (a : ExecuteRevokeVestingStreamAccounts)
      (out : Proposal × RevokeStreamOutcome × ProposalExecuted)
      → execute_revoke_vesting_stream R a now ≡ ok out
      → p ≡ a.base.on.proposal
      → q ≡ out.0
      → Execution R T now p q
  recaps :
      (a : ExecuteTreasuryConfigAccounts)
      (out : Proposal × (Treasury × SpendCapChanged) × ProposalExecuted)
      → execute_set_treasury_spend_cap R a now ≡ ok out
      → p ≡ a.base.on.proposal
      → q ≡ out.0
      → Execution R T now p q
  migrates :
      (a : ExecuteTreasuryConfigAccounts)
      (out : Proposal × (Treasury × GovernanceExecutorChanged) × ProposalExecuted)
      → execute_set_governance_executor R a now ≡ ok out
      → p ≡ a.base.on.proposal
      → q ≡ out.0
      → Execution R T now p q
  rates :
      (a : ExecuteSetStakingRewardRateAccounts)
      (out : Proposal × (Pool × RewardRateChanged) × ProposalExecuted)
      → execute_set_staking_reward_rate R a now ≡ ok out
      → p ≡ a.base.on.proposal
      → q ≡ out.0
      → Execution R T now p q
  accepts_admin :
      (a : ExecuteTokenAdminAccounts)
      (out : Proposal × (TokenConfig × AdminTransferAccepted) × ProposalExecuted)
      → execute_accept_token_manager_admin R a now ≡ ok out
      → p ≡ a.base.on.proposal
      → q ≡ out.0
      → Execution R T now p q
  pauses :
      (a : ExecuteTokenAdminAccounts)
      (out : Proposal × (TokenConfig × PauseToggled) × ProposalExecuted)
      → execute_set_token_paused R a now ≡ ok out
      → p ≡ a.base.on.proposal
      → q ≡ out.0
      → Execution R T now p q
  proposes_admin :
      (a : ExecuteTokenAdminAccounts)
      (out : Proposal × (TokenConfig × AdminTransferProposed) × ProposalExecuted)
      → execute_propose_token_admin R a now ≡ ok out
      → p ≡ a.base.on.proposal
      → q ≡ out.0
      → Execution R T now p q
  registers_minter :
      (a : ExecuteRegisterMinterAccounts)
      (out : Proposal × (TokenConfig × Minter × MinterRegistered) × ProposalExecuted)
      → execute_register_minter R a now ≡ ok out
      → p ≡ a.admin.base.on.proposal
      → q ≡ out.0
      → Execution R T now p q
  updates_minter :
      (a : ExecuteModifyMinterAccounts)
      (out : Proposal × (Minter × MinterUpdated) × ProposalExecuted)
      → execute_update_minter R a now ≡ ok out
      → p ≡ a.admin.base.on.proposal
      → q ≡ out.0
      → Execution R T now p q
  revokes_minter :
      (a : ExecuteModifyMinterAccounts)
      (out : Proposal × (TokenConfig × Minter × MinterRevoked) × ProposalExecuted)
      → execute_revoke_minter R a now ≡ ok out
      → p ≡ a.admin.base.on.proposal
      → q ≡ out.0
      → Execution R T now p q
  reparameterizes :
      (a : ExecuteAccounts) (out : Proposal × Realm × RealmParamsUpdated × ProposalExecuted)
      → execute_update_realm_params R a now ≡ ok out
      → p ≡ a.on.proposal
      → q ≡ out.0
      → Execution R T now p q
  reassigns :
      (a : ExecuteAccounts) (out : Proposal × Realm × RealmAuthorityChanged × ProposalExecuted)
      → execute_set_realm_authority R a now ≡ ok out
      → p ≡ a.on.proposal
      → q ≡ out.0
      → Execution R T now p q

signal-Passed :
    (R : Runtime) (a : ProposalAccounts) (now : ℤ) (out : Proposal × ProposalExecuted)
    → execute_signal R a now ≡ ok out
    → authorize_execution a.proposal now ≡ ok out.0
unfolding execute_signal
signal-Passed R a now out h =
    let k = (>>-eq-ok (check_proposal R a) _ h).1 in
    elim (Result-cases (authorize_execution a.proposal now)) [
      | inl (f, e) ↦ ground arith
      | inr (q, e) ↦ ground arith
    ]

pub update_realm_params-Passed :
    (R : Runtime) (a : ExecuteAccounts) (now : ℤ)
    (out : Proposal × Realm × RealmParamsUpdated × ProposalExecuted)
    → execute_update_realm_params R a now ≡ ok out
    → authorize_execution a.on.proposal now ≡ ok out.0
unfolding execute_update_realm_params
update_realm_params-Passed R a now out h =
    let (x, e, k) =
      matched (check_execute_realm_config R a) (update_realm_params_of a.on.proposal.action)
        action_account_mismatch _ h in
    let k' = (>>-eq-ok (validate x) _ k).1 in
    elim (Result-cases (authorize_execution a.on.proposal now)) [
      | inl (f, e) ↦ ground arith
      | inr (q, e) ↦ ground arith
    ]

pub set_realm_authority-Passed :
    (R : Runtime) (a : ExecuteAccounts) (now : ℤ)
    (out : Proposal × Realm × RealmAuthorityChanged × ProposalExecuted)
    → execute_set_realm_authority R a now ≡ ok out
    → authorize_execution a.on.proposal now ≡ ok out.0
unfolding execute_set_realm_authority
set_realm_authority-Passed R a now out h =
    let (x, e, k) =
      matched (check_execute_realm_config R a) (set_realm_authority_of a.on.proposal.action)
        action_account_mismatch _ h in
    elim (Result-cases (authorize_execution a.on.proposal now)) [
      | inl (f, e) ↦ ground arith
      | inr (q, e) ↦ ground arith
    ]

-- Each of the fifteen instructions that execute a proposal's action, where it succeeds, leaves the
-- proposal as the gate of execution does.
pub Execution-Authorized :
    {R : Runtime} {T : TokenProgram} {now : ℤ} {p q : Proposal}
    → Execution R T now p q
    → authorize_execution p now ≡ ok q
Execution-Authorized {R} {T} {now} (signals a out h ep eq) =
    let k = signal-Passed R a now out h in rw (ep, eq) k
Execution-Authorized {R} {T} {now} (transfers a out h ep eq) =
    let k = (execute_treasury_transfer-Mandated R T a now out h).1.passed in rw (ep, eq) k
Execution-Authorized {R} {T} {now} (creates_stream a id out h ep eq) =
    let k = (execute_create_vesting_stream-Mandated R a now id out h).2.passed in rw (ep, eq) k
Execution-Authorized {R} {T} {now} (revokes_stream a out h ep eq) =
    let k = (execute_revoke_vesting_stream-Mandated R a now out h).passed in rw (ep, eq) k
Execution-Authorized {R} {T} {now} (recaps a out h ep eq) =
    let k = (execute_set_treasury_spend_cap-Mandated R a now out h).2.passed in rw (ep, eq) k
Execution-Authorized {R} {T} {now} (migrates a out h ep eq) =
    let k = (execute_set_governance_executor-Mandated R a now out h).1.passed in rw (ep, eq) k
Execution-Authorized {R} {T} {now} (rates a out h ep eq) =
    let k = (execute_set_staking_reward_rate-Mandated R a now out h).2.passed in rw (ep, eq) k
Execution-Authorized {R} {T} {now} (accepts_admin a out h ep eq) =
    let k = (execute_accept_token_manager_admin-Mandated R a now out h).passed in rw (ep, eq) k
Execution-Authorized {R} {T} {now} (pauses a out h ep eq) =
    let k = (execute_set_token_paused-Mandated R a now out h).1.passed in rw (ep, eq) k
Execution-Authorized {R} {T} {now} (proposes_admin a out h ep eq) =
    let k = (execute_propose_token_admin-Mandated R a now out h).1.passed in rw (ep, eq) k
Execution-Authorized {R} {T} {now} (registers_minter a out h ep eq) =
    let k = (execute_register_minter-Mandated R a now out h).3.passed in rw (ep, eq) k
Execution-Authorized {R} {T} {now} (updates_minter a out h ep eq) =
    let k = (execute_update_minter-Mandated R a now out h).2.passed in rw (ep, eq) k
Execution-Authorized {R} {T} {now} (revokes_minter a out h ep eq) =
    let k = (execute_revoke_minter-Mandated R a now out h).passed in rw (ep, eq) k
Execution-Authorized {R} {T} {now} (reparameterizes a out h ep eq) =
    let k = update_realm_params-Passed R a now out h in rw (ep, eq) k
Execution-Authorized {R} {T} {now} (reassigns a out h ep eq) =
    let k = set_realm_authority-Passed R a now out h in rw (ep, eq) k

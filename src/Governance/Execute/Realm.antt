-- ===== src/Governance/Execute/Realm.antt =====
-- programs/governance/src/instructions/execute_realm.rs: the actions on the realm itself.
use helix_protocol.Prelude.{true, Option, some, none, ◌==◌}
use helix_protocol.Prelude.Int.{ℤ}
use helix_protocol.Prelude.Fallible.{ok, ◌>>=◌, ◌>>◌, constraint, constraint_seeds, ok_or}
use helix_protocol.Anchor.{Pubkey, helix_governance, Runtime, finds}
use helix_protocol.Governance.Types.{
  Realm, RealmParams, Proposal, ProposalAction, action_account_mismatch,
}
use helix_protocol.Governance.State.{Fallible, authorize_execution}
use helix_protocol.Governance.Realm.{validate}
use helix_protocol.Governance.Proposals.{check_proposal}
use helix_protocol.Governance.Events.{ProposalExecuted, RealmParamsUpdated, RealmAuthorityChanged}
use helix_protocol.Governance.Execute.{ExecuteAccounts, executor_seeds, executed_event}

-- The constraints of `#[derive(Accounts)] struct ExecuteRealmConfig`, which derives the bump of the
-- executor anew.
unfoldable pub check_execute_realm_config : Runtime → ExecuteAccounts → Fallible (Unit {0})
unfolding check_proposal
check_execute_realm_config R a = do
  check_proposal R a.on
  constraint (finds R (executor_seeds a.on.realm_key) helix_governance a.executor) constraint_seeds

-- The action that `execute_update_realm_params` matches.
unfoldable pub update_realm_params_of : ProposalAction → Option RealmParams
update_realm_params_of (ProposalAction.update_realm_params params) = some params
update_realm_params_of _ = none

-- The instruction `execute_update_realm_params`.
unfoldable pub execute_update_realm_params :
    Runtime
    → ExecuteAccounts
    → ℤ
    → Fallible (Proposal × Realm × RealmParamsUpdated × ProposalExecuted)
unfolding check_execute_realm_config update_realm_params_of validate
execute_update_realm_params R a now = do
  check_execute_realm_config R a
  params ← ok_or (update_realm_params_of a.on.proposal.action) action_account_mismatch
  validate params
  p ← authorize_execution a.on.proposal now
  ok (
    p,
    record (a.on.realm) {
      quorum_bps = params.quorum_bps;
      approval_bps = params.approval_bps;
      voting_period = params.voting_period;
      timelock_delay = params.timelock_delay;
      min_weight_to_propose = params.min_weight_to_propose;
    },
    record {
      realm = a.on.realm_key;
      by_proposal = true;
      quorum_bps = params.quorum_bps;
      approval_bps = params.approval_bps;
      voting_period = params.voting_period;
      timelock_delay = params.timelock_delay;
      min_weight_to_propose = params.min_weight_to_propose;
      timestamp = now;
    },
    executed_event a.on p now,
  )

-- The action that `execute_set_realm_authority` matches.
unfoldable pub set_realm_authority_of : ProposalAction → Option Pubkey
set_realm_authority_of (ProposalAction.set_realm_authority new_authority) = some new_authority
set_realm_authority_of _ = none

-- The instruction `execute_set_realm_authority`.
unfoldable pub execute_set_realm_authority :
    Runtime
    → ExecuteAccounts
    → ℤ
    → Fallible (Proposal × Realm × RealmAuthorityChanged × ProposalExecuted)
unfolding check_execute_realm_config set_realm_authority_of
execute_set_realm_authority R a now = do
  check_execute_realm_config R a
  new_authority ← ok_or (set_realm_authority_of a.on.proposal.action) action_account_mismatch
  p ← authorize_execution a.on.proposal now
  ok (
    p,
    record (a.on.realm) { authority = new_authority },
    record {
      realm = a.on.realm_key;
      previous_authority = a.on.realm.authority;
      new_authority = new_authority;
      self_governing = new_authority == a.executor;
      timestamp = now;
    },
    executed_event a.on p now,
  )

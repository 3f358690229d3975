-- ===== src/Governance/Execute/Staking.antt =====
-- programs/governance/src/instructions/execute.rs: the action on the staking pool.
use helix_protocol.Prelude.{ℕ, Option, some, none, ◌==◌}
use helix_protocol.Prelude.Int.{ℤ}
use helix_protocol.Prelude.Fallible.{ok, ◌>>=◌, ◌>>◌, constraint, constraint_has_one, ok_or, call}
use helix_protocol.Anchor.{Pubkey, Runtime, TokenAccount}
use helix_protocol.Staking.Types.{Pool}
use helix_protocol.Staking.Events.{RewardRateChanged}
use helix_protocol.Staking.Admin.{SetRewardRateAccounts, set_reward_rate}
use helix_protocol.Governance.Types.{Proposal, ProposalAction, action_account_mismatch}
use helix_protocol.Governance.State.{Fallible, authorize_execution}
use helix_protocol.Governance.Events.{ProposalExecuted}
use helix_protocol.Governance.Execute.{ExecuteAccounts, check_execute, executed_event}

-- The accounts of `ExecuteSetStakingRewardRate`.
pub record ExecuteSetStakingRewardRateAccounts : Type 0 where
  pub base : ExecuteAccounts
  pub staking_pool_key : Pubkey
  pub staking_pool : Pool
  pub reward_vault : TokenAccount

-- The constraints of `#[derive(Accounts)] struct ExecuteSetStakingRewardRate`.
unfoldable pub check_execute_set_staking_reward_rate :
    Runtime → ExecuteSetStakingRewardRateAccounts → Fallible (Unit {0})
unfolding check_execute
check_execute_set_staking_reward_rate R a = do
  check_execute R a.base
  constraint (a.base.on.realm.staking_pool == a.staking_pool_key) constraint_has_one

-- The accounts that are passed on to `helix_staking::cpi::set_reward_rate`.
abbrev pub set_reward_rate_accounts : ExecuteSetStakingRewardRateAccounts → SetRewardRateAccounts
set_reward_rate_accounts a = record {
  pool_key = a.staking_pool_key;
  pool = a.staking_pool;
  authority = a.base.executor;
  reward_vault = a.reward_vault;
}

-- The action that `execute_set_staking_reward_rate` matches.
unfoldable pub set_staking_reward_rate_of : ProposalAction → Option (ℕ × ℤ)
set_staking_reward_rate_of (ProposalAction.set_staking_reward_rate new_rate reward_period_end) =
    some (new_rate, reward_period_end)
set_staking_reward_rate_of _ = none

-- The instruction `execute_set_staking_reward_rate`.
unfoldable pub execute_set_staking_reward_rate :
    Runtime
    → ExecuteSetStakingRewardRateAccounts
    → ℤ
    → Fallible (Proposal × (Pool × RewardRateChanged) × ProposalExecuted)
unfolding check_execute_set_staking_reward_rate set_staking_reward_rate_of
execute_set_staking_reward_rate R a now = do
  let on = a.base.on
  check_execute_set_staking_reward_rate R a
  (new_rate, reward_period_end) ←
      ok_or (set_staking_reward_rate_of on.proposal.action) action_account_mismatch
  p ← authorize_execution on.proposal now
  out ← call (set_reward_rate R (set_reward_rate_accounts a) now new_rate reward_period_end)
  ok (p, out, executed_event on p now)

-- ===== src/Governance/Types.antt =====
-- programs/governance/src/constants.rs, errors.rs and the data of state.rs, with the parameters of
-- instructions/realm.rs.
use helix_protocol.Prelude.{ℕ, ◌*◌, String, Bool}
use helix_protocol.Prelude.Int.{ℤ, pos}
use helix_protocol.Anchor.{Pubkey, Seed}

abbrev pub realm_seed : Seed
realm_seed = Seed.text "realm"

abbrev pub proposal_seed : Seed
proposal_seed = Seed.text "proposal"

abbrev pub vote_seed : Seed
vote_seed = Seed.text "vote"

abbrev pub executor_seed : Seed
executor_seed = Seed.text "executor"

abbrev pub bps_denominator : ℕ
bps_denominator = 10_000

abbrev pub min_voting_period : ℤ
min_voting_period = pos 3_600

abbrev pub max_voting_period : ℤ
max_voting_period = pos (30 * 86_400)

abbrev pub min_timelock_delay : ℤ
min_timelock_delay = pos 3_600

abbrev pub max_timelock_delay : ℤ
max_timelock_delay = pos (30 * 86_400)

abbrev pub execution_grace_period : ℤ
execution_grace_period = pos (14 * 86_400)

abbrev pub max_bps : ℕ
max_bps = 10_000

abbrev pub min_approval_bps : ℕ
min_approval_bps = 5_001

abbrev pub max_title_len : ℕ
max_title_len = 64

abbrev pub max_uri_len : ℕ
max_uri_len = 200

pub data GovernanceError : Type 0 where
  not_authority not_guardian invalid_voting_period invalid_timelock_delay : GovernanceError
  invalid_quorum invalid_approval_threshold text_too_long : GovernanceError
  invalid_proposal_state voting_not_started voting_ended voting_still_open : GovernanceError
  not_position_owner pool_mismatch insufficient_lock_duration zero_weight : GovernanceError
  position_not_in_snapshot below_proposal_threshold timelock_not_elapsed : GovernanceError
  proposal_expired missing_snapshot action_account_mismatch math_overflow : GovernanceError
  unexpected_proposal_id : GovernanceError

pub record RealmParams : Type 0 where
  pub quorum_bps : ℕ
  pub approval_bps : ℕ
  pub voting_period : ℤ
  pub timelock_delay : ℤ
  pub min_weight_to_propose : ℕ

pub data ProposalAction : Type 0 where
  signal : ProposalAction
  treasury_transfer : (destination : Pubkey) (amount : ℕ) → ProposalAction
  set_staking_reward_rate : (new_rate : ℕ) (reward_period_end : ℤ) → ProposalAction
  create_vesting_stream :
      (beneficiary : Pubkey) (total_amount : ℕ) (start_ts cliff_ts end_ts : ℤ) → ProposalAction
  revoke_vesting_stream : (stream_id : ℕ) → ProposalAction
  set_treasury_spend_cap : (new_cap : ℕ) (epoch_duration : ℤ) → ProposalAction
  set_governance_executor : (new_executor : Pubkey) → ProposalAction
  accept_token_manager_admin : ProposalAction
  register_minter : (authority : Pubkey) (epoch_cap : ℕ) (epoch_duration : ℤ) → ProposalAction
  update_minter : (epoch_cap : ℕ) (enabled : Bool) → ProposalAction
  revoke_minter : ProposalAction
  set_token_paused : (paused : Bool) → ProposalAction
  propose_token_admin : (new_admin : Pubkey) → ProposalAction
  update_realm_params : (params : RealmParams) → ProposalAction
  set_realm_authority : (new_authority : Pubkey) → ProposalAction

pub data ProposalState : Type 0 where
  draft voting succeeded defeated queued executed cancelled : ProposalState

-- `For`, `Against` and `Abstain`.
pub data VoteChoice : Type 0 where
  in_favour against abstain : VoteChoice

pub record Realm : Type 0 where
  pub authority : Pubkey
  pub guardian : Pubkey
  pub staking_pool : Pubkey
  pub quorum_bps : ℕ
  pub approval_bps : ℕ
  pub voting_period : ℤ
  pub timelock_delay : ℤ
  pub min_weight_to_propose : ℕ
  pub proposal_count : ℕ
  pub bump : ℕ
  pub executor_bump : ℕ

pub record Proposal : Type 0 where
  pub realm : Pubkey
  pub proposer : Pubkey
  pub id : ℕ
  pub state : ProposalState
  pub action : ProposalAction
  pub title : String
  pub descriptor_uri : String
  pub created_at : ℤ
  pub voting_starts_at : ℤ
  pub voting_ends_at : ℤ
  pub eta : ℤ
  pub for_votes : ℕ
  pub against_votes : ℕ
  pub abstain_votes : ℕ
  pub total_weight_snapshot : ℕ
  pub position_count_snapshot : ℕ
  pub bump : ℕ

pub record VoteRecord : Type 0 where
  pub proposal : Pubkey
  pub position : Pubkey
  pub voter : Pubkey
  pub choice : VoteChoice
  pub weight : ℕ
  pub voted_at : ℤ
  pub bump : ℕ

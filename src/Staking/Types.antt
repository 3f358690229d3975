-- ===== src/Staking/Types.antt =====
-- programs/staking/src/constants.rs, errors.rs and the data of state.rs.
use helix_protocol.Prelude.{ℕ, Bool, Option}
use helix_protocol.Prelude.Int.{ℤ}
use helix_protocol.Anchor.{Pubkey, Seed}

abbrev pub pool_seed : Seed
pool_seed = Seed.text "pool"

abbrev pub position_seed : Seed
position_seed = Seed.text "position"

abbrev pub stake_vault_seed : Seed
stake_vault_seed = Seed.text "stake_vault"

abbrev pub reward_vault_seed : Seed
reward_vault_seed = Seed.text "reward_vault"

abbrev pub vault_authority_seed : Seed
vault_authority_seed = Seed.text "vault_authority"

abbrev pub precision : ℕ
precision = 1_000_000_000_000

abbrev pub bps_denominator : ℕ
bps_denominator = 10_000

abbrev pub max_reward_rate : ℕ
max_reward_rate = 1_000_000_000_000

abbrev pub min_stake_amount : ℕ
min_stake_amount = 1_000

abbrev pub seconds_per_day : ℕ
seconds_per_day = 86_400

pub data StakingError : Type 0 where
  not_authority no_pending_authority not_pending_authority deposits_paused : StakingError
  below_minimum_stake zero_amount position_locked insufficient_stake : StakingError
  reward_rate_too_high invalid_reward_period insufficient_reward_funding : StakingError
  nothing_to_claim zero_after_fees vault_balance_mismatch position_pool_mismatch : StakingError
  math_overflow position_not_empty unclaimed_rewards unexpected_position_id : StakingError

pub data LockTier : Type 0 where
  flexible bronze silver gold : LockTier

pub record Pool : Type 0 where
  pub authority : Pubkey
  pub pending_authority : Option Pubkey
  pub stake_mint : Pubkey
  pub reward_mint : Pubkey
  pub stake_vault : Pubkey
  pub reward_vault : Pubkey
  pub total_staked : ℕ
  pub total_weighted : ℕ
  pub reward_rate : ℕ
  pub reward_period_end : ℤ
  pub reward_per_token : ℕ
  pub last_update_ts : ℤ
  pub total_rewards_funded : ℕ
  pub total_rewards_accrued : ℕ
  pub total_rewards_paid : ℕ
  pub position_count : ℕ
  pub paused : Bool
  pub bump : ℕ
  pub vault_authority_bump : ℕ

pub record Position : Type 0 where
  pub pool : Pubkey
  pub owner : Pubkey
  pub position_id : ℕ
  pub amount : ℕ
  pub weighted_amount : ℕ
  pub tier : LockTier
  pub lock_end : ℤ
  pub reward_per_token_paid : ℕ
  pub pending_rewards : ℕ
  pub created_at : ℤ
  pub bump : ℕ

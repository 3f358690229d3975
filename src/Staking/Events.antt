-- ===== src/Staking/Events.antt =====
-- programs/staking/src/events.rs.
use helix_protocol.Prelude.{ℕ, Bool}
use helix_protocol.Prelude.Int.{ℤ}
use helix_protocol.Anchor.{Pubkey}
use helix_protocol.Staking.Types.{LockTier}

pub record PoolInitialized : Type 0 where
  pub pool : Pubkey
  pub authority : Pubkey
  pub stake_mint : Pubkey
  pub reward_mint : Pubkey
  pub timestamp : ℤ

pub record Staked : Type 0 where
  pub pool : Pubkey
  pub position : Pubkey
  pub owner : Pubkey
  pub position_id : ℕ
  pub amount_sent : ℕ
  pub amount_credited : ℕ
  pub weighted_amount : ℕ
  pub tier : LockTier
  pub lock_end : ℤ
  pub timestamp : ℤ

pub record Unstaked : Type 0 where
  pub pool : Pubkey
  pub position : Pubkey
  pub owner : Pubkey
  pub amount : ℕ
  pub remaining : ℕ
  pub weighted_amount : ℕ
  pub timestamp : ℤ

pub record PositionClosed : Type 0 where
  pub pool : Pubkey
  pub position : Pubkey
  pub owner : Pubkey
  pub position_id : ℕ
  pub timestamp : ℤ

pub record RewardsClaimed : Type 0 where
  pub pool : Pubkey
  pub position : Pubkey
  pub owner : Pubkey
  pub amount : ℕ
  pub timestamp : ℤ

pub record RewardsFunded : Type 0 where
  pub pool : Pubkey
  pub funder : Pubkey
  pub amount_credited : ℕ
  pub total_funded : ℕ
  pub timestamp : ℤ

pub record RewardRateChanged : Type 0 where
  pub pool : Pubkey
  pub old_rate : ℕ
  pub new_rate : ℕ
  pub reward_period_end : ℤ
  pub timestamp : ℤ

pub record PoolPauseToggled : Type 0 where
  pub pool : Pubkey
  pub paused : Bool
  pub timestamp : ℤ

pub record AuthorityTransferProposed : Type 0 where
  pub pool : Pubkey
  pub current_authority : Pubkey
  pub pending_authority : Pubkey
  pub timestamp : ℤ

pub record AuthorityTransferAccepted : Type 0 where
  pub pool : Pubkey
  pub previous_authority : Pubkey
  pub new_authority : Pubkey
  pub timestamp : ℤ

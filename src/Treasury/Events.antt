-- ===== src/Treasury/Events.antt =====
-- programs/treasury/src/events.rs.
use helix_protocol.Prelude.{ℕ}
use helix_protocol.Prelude.Int.{ℤ}
use helix_protocol.Anchor.{Pubkey}

pub record TreasuryInitialized : Type 0 where
  pub treasury : Pubkey
  pub governance_executor : Pubkey
  pub mint : Pubkey
  pub epoch_spend_cap : ℕ
  pub epoch_duration : ℤ
  pub timestamp : ℤ

pub record Deposited : Type 0 where
  pub treasury : Pubkey
  pub depositor : Pubkey
  pub amount_credited : ℕ
  pub total_deposited : ℕ
  pub timestamp : ℤ

pub record Spent : Type 0 where
  pub treasury : Pubkey
  pub destination : Pubkey
  pub amount : ℕ
  pub remaining_epoch_budget : ℕ
  pub total_spent : ℕ
  pub timestamp : ℤ

pub record StreamCreated : Type 0 where
  pub treasury : Pubkey
  pub stream : Pubkey
  pub beneficiary : Pubkey
  pub stream_id : ℕ
  pub total_amount : ℕ
  pub start_ts : ℤ
  pub cliff_ts : ℤ
  pub end_ts : ℤ
  pub timestamp : ℤ

pub record StreamClaimed : Type 0 where
  pub treasury : Pubkey
  pub stream : Pubkey
  pub beneficiary : Pubkey
  pub amount : ℕ
  pub total_claimed : ℕ
  pub timestamp : ℤ

pub record StreamRevoked : Type 0 where
  pub treasury : Pubkey
  pub stream : Pubkey
  pub beneficiary : Pubkey
  pub vested_retained : ℕ
  pub unvested_returned : ℕ
  pub timestamp : ℤ

pub record SpendCapChanged : Type 0 where
  pub treasury : Pubkey
  pub old_cap : ℕ
  pub new_cap : ℕ
  pub epoch_duration : ℤ
  pub timestamp : ℤ

pub record GovernanceExecutorChanged : Type 0 where
  pub treasury : Pubkey
  pub previous_executor : Pubkey
  pub new_executor : Pubkey
  pub timestamp : ℤ

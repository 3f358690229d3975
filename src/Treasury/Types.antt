-- ===== src/Treasury/Types.antt =====
-- programs/treasury/src/constants.rs, errors.rs and the data of state.rs.
use helix_protocol.Prelude.{ℕ, ◌*◌, Bool}
use helix_protocol.Prelude.Int.{ℤ, pos}
use helix_protocol.Anchor.{Pubkey, Seed}

abbrev pub treasury_seed : Seed
treasury_seed = Seed.text "treasury"

abbrev pub vault_seed : Seed
vault_seed = Seed.text "vault"

abbrev pub vault_authority_seed : Seed
vault_authority_seed = Seed.text "vault_authority"

abbrev pub stream_seed : Seed
stream_seed = Seed.text "stream"

abbrev pub min_epoch_duration : ℤ
min_epoch_duration = pos 3_600

abbrev pub max_epoch_duration : ℤ
max_epoch_duration = pos (90 * 86_400)

abbrev pub min_stream_duration : ℤ
min_stream_duration = pos 86_400

pub data TreasuryError : Type 0 where
  not_governance_executor not_beneficiary zero_amount epoch_spend_cap_exceeded : TreasuryError
  invalid_epoch_duration invalid_vesting_schedule stream_too_short : TreasuryError
  stream_revoked nothing_claimable insufficient_uncommitted_balance : TreasuryError
  zero_after_fees vault_balance_mismatch math_overflow : TreasuryError

pub record Treasury : Type 0 where
  pub governance_executor : Pubkey
  pub mint : Pubkey
  pub vault : Pubkey
  pub total_deposited : ℕ
  pub total_spent : ℕ
  pub committed_to_streams : ℕ
  pub epoch_duration : ℤ
  pub epoch_spend_cap : ℕ
  pub spent_this_epoch : ℕ
  pub current_epoch : ℕ
  pub stream_count : ℕ
  pub bump : ℕ
  pub vault_authority_bump : ℕ

pub record VestingStream : Type 0 where
  pub treasury : Pubkey
  pub beneficiary : Pubkey
  pub stream_id : ℕ
  pub total_amount : ℕ
  pub claimed : ℕ
  pub start_ts : ℤ
  pub cliff_ts : ℤ
  pub end_ts : ℤ
  pub revoked : Bool
  pub revoked_at : ℤ
  pub bump : ℕ

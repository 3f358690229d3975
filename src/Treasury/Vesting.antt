-- ===== src/Treasury/Vesting.antt =====
-- programs/treasury/src/instructions/vesting.rs: vesting streams are created and revoked by
-- governance and claimed by their beneficiaries.
use helix_protocol.Prelude.{ℕ, Bool, false, true, not, List, [], ◌∷◌, ◌==◌, ltb, leb, ◌&&◌}
use helix_protocol.Prelude.Int.{ℤ, pos, leb_ℤ}
use helix_protocol.Prelude.Machine.{u64_max, checked_add, checked_sub, saturating_sub_i64}
use helix_protocol.Prelude.Fallible.{
  custom, ok, ◌>>=◌, ◌>>◌, require, constraint, ok_or, or_abort, constraint_has_one,
  constraint_seeds, constraint_token, account_in_use, cpi_failed,
}
use helix_protocol.Anchor.{
  Pubkey, Seed, helix_treasury, Runtime, derives, finds, Mint, TokenAccount, TokenProgram, holds,
  holds_for,
}
use helix_protocol.Treasury.Types.{
  Treasury, VestingStream, stream_seed, vault_seed, vault_authority_seed, min_stream_duration,
  not_beneficiary, zero_amount, invalid_vesting_schedule, stream_too_short, stream_revoked,
  nothing_claimable, insufficient_uncommitted_balance, math_overflow,
}
use helix_protocol.Treasury.State.{Fallible, uncommitted, claimable_at, unvested_remainder}
use helix_protocol.Treasury.Events.{StreamCreated, StreamClaimed, StreamRevoked}
use helix_protocol.Treasury.Funds.{treasury_seeds, check_governance}

abbrev pub stream_seeds : Pubkey → ℕ → List Seed
stream_seeds treasury id = stream_seed ∷ Seed.key treasury ∷ Seed.le_bytes id ∷ []

-- The accounts of `CreateStream`.
pub record CreateStreamAccounts : Type 0 where
  pub treasury_key : Pubkey
  pub treasury : Treasury
  pub governance_executor : Pubkey
  pub beneficiary : Pubkey
  pub stream_key : Pubkey
  pub stream_in_use : Bool
  pub vault : TokenAccount

-- The constraints of `#[derive(Accounts)] struct CreateStream`.
unfoldable pub check_create_stream : Runtime → CreateStreamAccounts → ℕ → Fallible (Unit {0})
unfolding check_governance
check_create_stream R a stream_id = do
  check_governance R (record {
    treasury_key = a.treasury_key;
    treasury = a.treasury;
    governance_executor = a.governance_executor;
  })
  constraint (a.treasury.vault == a.vault.key) constraint_has_one
  constraint (finds R (stream_seeds a.treasury_key stream_id) helix_treasury a.stream_key)
      constraint_seeds
  constraint (not a.stream_in_use) account_in_use
  constraint (finds R (vault_seed ∷ Seed.key a.treasury_key ∷ []) helix_treasury a.vault.key)
      constraint_seeds

pub record CreateStreamOutcome : Type 0 where
  pub treasury : Treasury
  pub stream : VestingStream
  pub event : StreamCreated

-- `create_stream`, once the accounts are checked.
unfoldable pub create_stream_handler :
    Runtime → CreateStreamAccounts → ℤ → ℕ → ℕ → ℤ → ℤ → ℤ → Fallible CreateStreamOutcome
create_stream_handler R a now stream_id total_amount start_ts cliff_ts end_ts = do
  require (ltb 0 total_amount) zero_amount
  require (leb_ℤ start_ts cliff_ts && leb_ℤ cliff_ts end_ts) invalid_vesting_schedule
  require (leb_ℤ min_stream_duration (saturating_sub_i64 end_ts start_ts)) stream_too_short
  require (stream_id == a.treasury.stream_count) math_overflow
  require (leb total_amount (uncommitted a.treasury a.vault.amount))
      insufficient_uncommitted_balance
  committed ← ok_or (checked_add u64_max a.treasury.committed_to_streams total_amount) math_overflow
  count ← ok_or (checked_add u64_max a.treasury.stream_count 1) math_overflow
  ok (record {
    treasury = record (a.treasury) { committed_to_streams = committed; stream_count = count };
    stream = record {
      treasury = a.treasury_key;
      beneficiary = a.beneficiary;
      stream_id = stream_id;
      total_amount = total_amount;
      claimed = 0;
      start_ts = start_ts;
      cliff_ts = cliff_ts;
      end_ts = end_ts;
      revoked = false;
      revoked_at = pos 0;
      bump = (R.find_program_address (stream_seeds a.treasury_key stream_id) helix_treasury).1;
    };
    event = record {
      treasury = a.treasury_key;
      stream = a.stream_key;
      beneficiary = a.beneficiary;
      stream_id = stream_id;
      total_amount = total_amount;
      start_ts = start_ts;
      cliff_ts = cliff_ts;
      end_ts = end_ts;
      timestamp = now;
    };
  })

-- The instruction `create_stream`.
unfoldable pub create_stream :
    Runtime → CreateStreamAccounts → ℤ → ℕ → ℕ → ℤ → ℤ → ℤ → Fallible CreateStreamOutcome
unfolding check_create_stream create_stream_handler
create_stream R a now stream_id total_amount start_ts cliff_ts end_ts =
    check_create_stream R a stream_id
    >> create_stream_handler R a now stream_id total_amount start_ts cliff_ts end_ts

-- The accounts of `ClaimStream`.
pub record ClaimStreamAccounts : Type 0 where
  pub treasury_key : Pubkey
  pub treasury : Treasury
  pub stream_key : Pubkey
  pub stream : VestingStream
  pub beneficiary : Pubkey
  pub mint : Mint
  pub vault : TokenAccount
  pub beneficiary_token_account : TokenAccount
  pub vault_authority : Pubkey
  pub token_program : Pubkey

-- The constraints of `#[derive(Accounts)] struct ClaimStream`.
unfoldable pub check_claim_stream : Runtime → ClaimStreamAccounts → Fallible (Unit {0})
check_claim_stream R a = do
  constraint (derives R (treasury_seeds a.treasury) a.treasury.bump helix_treasury a.treasury_key)
      constraint_seeds
  constraint (a.treasury.vault == a.vault.key) constraint_has_one
  constraint (a.treasury.mint == a.mint.key) constraint_has_one
  constraint
      (derives R (stream_seeds a.treasury_key a.stream.stream_id) a.stream.bump helix_treasury
        a.stream_key)
      constraint_seeds
  constraint (a.stream.treasury == a.treasury_key) constraint_has_one
  constraint (a.stream.beneficiary == a.beneficiary) (custom not_beneficiary)
  constraint (finds R (vault_seed ∷ Seed.key a.treasury_key ∷ []) helix_treasury a.vault.key)
      constraint_seeds
  constraint (holds a.vault a.mint a.token_program) constraint_token
  constraint (holds_for a.beneficiary_token_account a.mint a.beneficiary a.token_program)
      constraint_token
  constraint
      (derives R (vault_authority_seed ∷ Seed.key a.treasury_key ∷ [])
        a.treasury.vault_authority_bump helix_treasury a.vault_authority)
      constraint_seeds

pub record ClaimStreamOutcome : Type 0 where
  pub treasury : Treasury
  pub stream : VestingStream
  pub vault : TokenAccount
  pub beneficiary_token_account : TokenAccount
  pub event : StreamClaimed

-- `claim_stream`, once the accounts are checked.
unfoldable pub claim_stream_handler :
    TokenProgram → ClaimStreamAccounts → ℤ → Fallible ClaimStreamOutcome
claim_stream_handler T a now = do
  amount ← claimable_at a.stream now
  require (ltb 0 amount) nothing_claimable
  (vault, receiver) ←
      or_abort
        (T.transfer_checked a.vault a.mint a.beneficiary_token_account a.vault_authority amount
          a.mint.decimals)
        cpi_failed
  claimed ← ok_or (checked_add u64_max a.stream.claimed amount) math_overflow
  committed ← ok_or (checked_sub a.treasury.committed_to_streams amount) math_overflow
  ok (record {
    treasury = record (a.treasury) { committed_to_streams = committed };
    stream = record (a.stream) { claimed = claimed };
    vault = vault;
    beneficiary_token_account = receiver;
    event = record {
      treasury = a.treasury_key;
      stream = a.stream_key;
      beneficiary = a.beneficiary;
      amount = amount;
      total_claimed = claimed;
      timestamp = now;
    };
  })

-- The instruction `claim_stream`.
unfoldable pub claim_stream :
    Runtime → TokenProgram → ClaimStreamAccounts → ℤ → Fallible ClaimStreamOutcome
unfolding check_claim_stream claim_stream_handler
claim_stream R T a now = check_claim_stream R a >> claim_stream_handler T a now

-- The accounts of `RevokeStream`.
pub record RevokeStreamAccounts : Type 0 where
  pub treasury_key : Pubkey
  pub treasury : Treasury
  pub governance_executor : Pubkey
  pub stream_key : Pubkey
  pub stream : VestingStream

-- The constraints of `#[derive(Accounts)] struct RevokeStream`.
unfoldable pub check_revoke_stream : Runtime → RevokeStreamAccounts → Fallible (Unit {0})
unfolding check_governance
check_revoke_stream R a = do
  check_governance R (record {
    treasury_key = a.treasury_key;
    treasury = a.treasury;
    governance_executor = a.governance_executor;
  })
  constraint
      (derives R (stream_seeds a.treasury_key a.stream.stream_id) a.stream.bump helix_treasury
        a.stream_key)
      constraint_seeds
  constraint (a.stream.treasury == a.treasury_key) constraint_has_one

pub record RevokeStreamOutcome : Type 0 where
  pub treasury : Treasury
  pub stream : VestingStream
  pub event : StreamRevoked

-- `revoke_stream`, once the accounts are checked.
unfoldable pub revoke_stream_handler : RevokeStreamAccounts → ℤ → Fallible RevokeStreamOutcome
revoke_stream_handler a now = do
  require (not a.stream.revoked) stream_revoked
  let stream = record (a.stream) { revoked = true; revoked_at = now }
  unvested ← unvested_remainder stream
  vested_retained ← claimable_at stream now
  committed ← ok_or (checked_sub a.treasury.committed_to_streams unvested) math_overflow
  ok (record {
    treasury = record (a.treasury) { committed_to_streams = committed };
    stream = stream;
    event = record {
      treasury = a.treasury_key;
      stream = a.stream_key;
      beneficiary = a.stream.beneficiary;
      vested_retained = vested_retained;
      unvested_returned = unvested;
      timestamp = now;
    };
  })

-- The instruction `revoke_stream`.
unfoldable pub revoke_stream : Runtime → RevokeStreamAccounts → ℤ → Fallible RevokeStreamOutcome
unfolding check_revoke_stream revoke_stream_handler
revoke_stream R a now = check_revoke_stream R a >> revoke_stream_handler a now

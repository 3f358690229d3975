-- ===== src/Staking/Stake.antt =====
-- programs/staking/src/instructions/stake.rs: opening a position. The accounts come as a record, the
-- chain's clock as the argument `now`. Which of several failing account checks is reported is the
-- framework's affair; here it is the first that is listed.
use helix_protocol.Prelude.{ℕ, Bool, not, List, [], ◌∷◌, ◌==◌, ltb, leb}
use helix_protocol.Prelude.Int.{ℤ}
use helix_protocol.Prelude.Machine.{u64_max, checked_add, checked_sub, checked_add_i64}
use helix_protocol.Prelude.Fallible.{
  ok, ◌>>=◌, ◌>>◌, require, constraint, ok_or, or_abort, constraint_has_one, constraint_seeds,
  constraint_token, account_in_use, cpi_failed,
}
use helix_protocol.Anchor.{
  Pubkey, Seed, helix_staking, Runtime, derives, finds, Mint, TokenAccount, TokenProgram, holds,
  holds_for,
}
use helix_protocol.Staking.Types.{
  Pool, Position, LockTier, pool_seed, position_seed, stake_vault_seed, min_stake_amount,
  deposits_paused, below_minimum_stake, unexpected_position_id, vault_balance_mismatch,
  zero_after_fees, math_overflow,
}
use helix_protocol.Staking.State.{Fallible, duration, apply_weight, update_rewards}
use helix_protocol.Staking.Events.{Staked}

-- The accounts of `Stake`. `position_in_use` says whether an account stands at the address of the
-- position already, which `init` refuses.
pub record StakeAccounts : Type 0 where
  pub pool_key : Pubkey
  pub pool : Pool
  pub owner : Pubkey
  pub position_key : Pubkey
  pub position_in_use : Bool
  pub stake_mint : Mint
  pub owner_token_account : TokenAccount
  pub stake_vault : TokenAccount
  pub token_program : Pubkey

-- The seeds of the pool's own address.
abbrev pub pool_seeds : Pool → List Seed
pool_seeds p = pool_seed ∷ Seed.key p.stake_mint ∷ Seed.key p.reward_mint ∷ []

abbrev pub position_seeds : Pubkey → Pubkey → ℕ → List Seed
position_seeds pool owner id =
    position_seed ∷ Seed.key pool ∷ Seed.key owner ∷ Seed.le_bytes id ∷ []

-- The constraints of `#[derive(Accounts)] struct Stake`.
unfoldable pub check_stake : Runtime → StakeAccounts → ℕ → Fallible (Unit {0})
check_stake R a position_id = do
  constraint (derives R (pool_seeds a.pool) a.pool.bump helix_staking a.pool_key) constraint_seeds
  constraint (a.pool.stake_vault == a.stake_vault.key) constraint_has_one
  constraint (a.pool.stake_mint == a.stake_mint.key) constraint_has_one
  constraint (finds R (position_seeds a.pool_key a.owner position_id) helix_staking a.position_key)
      constraint_seeds
  constraint (not a.position_in_use) account_in_use
  constraint (holds_for a.owner_token_account a.stake_mint a.owner a.token_program) constraint_token
  constraint (finds R (stake_vault_seed ∷ Seed.key a.pool_key ∷ []) helix_staking a.stake_vault.key)
      constraint_seeds
  constraint (holds a.stake_vault a.stake_mint a.token_program) constraint_token

pub record StakeOutcome : Type 0 where
  pub pool : Pool
  pub position : Position
  pub owner_token_account : TokenAccount
  pub stake_vault : TokenAccount
  pub event : Staked

-- `stake`, once the accounts are checked.
unfoldable pub stake_handler :
    Runtime → TokenProgram → StakeAccounts → ℤ → ℕ → ℕ → LockTier → Fallible StakeOutcome
stake_handler R T a now position_id amount tier = do
  require (not a.pool.paused) deposits_paused
  require (leb min_stake_amount amount) below_minimum_stake
  require (position_id == a.pool.position_count) unexpected_position_id
  pool ← update_rewards a.pool now
  (sender, vault) ←
      or_abort
        (T.transfer_checked a.owner_token_account a.stake_mint a.stake_vault a.owner amount
          a.stake_mint.decimals)
        cpi_failed
  credited ← ok_or (checked_sub vault.amount a.stake_vault.amount) vault_balance_mismatch
  require (ltb 0 credited) zero_after_fees
  weighted ← apply_weight tier credited
  lock_end ← ok_or (checked_add_i64 now (duration tier)) math_overflow
  total_staked ← ok_or (checked_add u64_max pool.total_staked credited) math_overflow
  total_weighted ← ok_or (checked_add u64_max pool.total_weighted weighted) math_overflow
  position_count ← ok_or (checked_add u64_max pool.position_count 1) math_overflow
  ok (record {
    pool = record pool {
      total_staked = total_staked;
      total_weighted = total_weighted;
      position_count = position_count;
    };
    position = record {
      pool = a.pool_key;
      owner = a.owner;
      position_id = position_id;
      amount = credited;
      weighted_amount = weighted;
      tier = tier;
      lock_end = lock_end;
      reward_per_token_paid = pool.reward_per_token;
      pending_rewards = 0;
      created_at = now;
      bump =
          (R.find_program_address (position_seeds a.pool_key a.owner position_id) helix_staking).1;
    };
    owner_token_account = sender;
    stake_vault = vault;
    event = record {
      pool = a.pool_key;
      position = a.position_key;
      owner = a.owner;
      position_id = position_id;
      amount_sent = amount;
      amount_credited = credited;
      weighted_amount = weighted;
      tier = tier;
      lock_end = lock_end;
      timestamp = now;
    };
  })

-- The instruction `stake`.
unfoldable pub stake :
    Runtime → TokenProgram → StakeAccounts → ℤ → ℕ → ℕ → LockTier → Fallible StakeOutcome
unfolding check_stake stake_handler
stake R T a now position_id amount tier =
    check_stake R a position_id >> stake_handler R T a now position_id amount tier

-- ===== src/Staking/Withdraw.antt =====
-- programs/staking/src/instructions/unstake.rs, claim.rs and close_position.rs.
use helix_protocol.Prelude.{ℕ, [], ◌∷◌, ◌==◌, ltb, leb}
use helix_protocol.Prelude.Int.{ℤ}
use helix_protocol.Prelude.Machine.{u64_max, checked_add, checked_sub}
use helix_protocol.Prelude.Fallible.{
  custom, ok, ◌>>=◌, ◌>>◌, require, constraint, ok_or, or_abort, constraint_has_one,
  constraint_seeds, constraint_token, cpi_failed,
}
use helix_protocol.Anchor.{
  Pubkey, Seed, helix_staking, Runtime, derives, finds, Mint, TokenAccount, TokenProgram, holds,
  holds_for,
}
use helix_protocol.Staking.Types.{
  Pool, Position, stake_vault_seed, reward_vault_seed, vault_authority_seed, zero_amount,
  position_locked, insufficient_stake, nothing_to_claim, position_pool_mismatch, math_overflow,
}
use helix_protocol.Staking.State.{
  Fallible, apply_weight, update_rewards, settle, is_unlocked, ensure_closable,
}
use helix_protocol.Staking.Events.{Unstaked, RewardsClaimed, PositionClosed}
use helix_protocol.Staking.Stake.{pool_seeds, position_seeds}

-- The accounts of `Unstake`.
pub record UnstakeAccounts : Type 0 where
  pub pool_key : Pubkey
  pub pool : Pool
  pub owner : Pubkey
  pub position_key : Pubkey
  pub position : Position
  pub stake_mint : Mint
  pub stake_vault : TokenAccount
  pub owner_token_account : TokenAccount
  pub vault_authority : Pubkey
  pub token_program : Pubkey

-- The constraints on a position that its owner presents, with its pool: the same in `Unstake`, in
-- `Claim` and in `ClosePosition`.
unfoldable pub check_position :
    Runtime → Pubkey → Pool → Pubkey → Pubkey → Position → Fallible (Unit {0})
check_position R pool_key pool owner position_key position = do
  constraint (derives R (pool_seeds pool) pool.bump helix_staking pool_key) constraint_seeds
  constraint
      (derives R (position_seeds pool_key owner position.position_id) position.bump helix_staking
        position_key)
      constraint_seeds
  constraint (position.pool == pool_key) (custom position_pool_mismatch)
  constraint (position.owner == owner) constraint_has_one

-- The constraints of `#[derive(Accounts)] struct Unstake`.
unfoldable pub check_unstake : Runtime → UnstakeAccounts → Fallible (Unit {0})
unfolding check_position
check_unstake R a = do
  check_position R a.pool_key a.pool a.owner a.position_key a.position
  constraint (a.pool.stake_vault == a.stake_vault.key) constraint_has_one
  constraint (a.pool.stake_mint == a.stake_mint.key) constraint_has_one
  constraint (finds R (stake_vault_seed ∷ Seed.key a.pool_key ∷ []) helix_staking a.stake_vault.key)
      constraint_seeds
  constraint (holds a.stake_vault a.stake_mint a.token_program) constraint_token
  constraint (holds_for a.owner_token_account a.stake_mint a.owner a.token_program) constraint_token
  constraint
      (derives R (vault_authority_seed ∷ Seed.key a.pool_key ∷ []) a.pool.vault_authority_bump
        helix_staking a.vault_authority)
      constraint_seeds

pub record UnstakeOutcome : Type 0 where
  pub pool : Pool
  pub position : Position
  pub stake_vault : TokenAccount
  pub owner_token_account : TokenAccount
  pub event : Unstaked

-- `unstake`, once the accounts are checked.
unfoldable pub unstake_handler : TokenProgram → UnstakeAccounts → ℤ → ℕ → Fallible UnstakeOutcome
unstake_handler T a now amount = do
  require (ltb 0 amount) zero_amount
  require (is_unlocked a.position now) position_locked
  require (leb amount a.position.amount) insufficient_stake
  pool ← update_rewards a.pool now
  settled ← settle a.position pool.reward_per_token
  let old_weighted = settled.weighted_amount
  remaining ← ok_or (checked_sub settled.amount amount) math_overflow
  new_weighted ← apply_weight settled.tier remaining
  (vault, receiver) ←
      or_abort
        (T.transfer_checked a.stake_vault a.stake_mint a.owner_token_account a.vault_authority
          amount a.stake_mint.decimals)
        cpi_failed
  weight_removed ← ok_or (checked_sub old_weighted new_weighted) math_overflow
  total_staked ← ok_or (checked_sub pool.total_staked amount) math_overflow
  total_weighted ← ok_or (checked_sub pool.total_weighted weight_removed) math_overflow
  ok (record {
    pool = record pool { total_staked = total_staked; total_weighted = total_weighted };
    position = record settled { amount = remaining; weighted_amount = new_weighted };
    stake_vault = vault;
    owner_token_account = receiver;
    event = record {
      pool = a.pool_key;
      position = a.position_key;
      owner = a.owner;
      amount = amount;
      remaining = remaining;
      weighted_amount = new_weighted;
      timestamp = now;
    };
  })

-- The instruction `unstake`.
unfoldable pub unstake : Runtime → TokenProgram → UnstakeAccounts → ℤ → ℕ → Fallible UnstakeOutcome
unfolding check_unstake unstake_handler
unstake R T a now amount = check_unstake R a >> unstake_handler T a now amount

-- The accounts of `Claim`.
pub record ClaimAccounts : Type 0 where
  pub pool_key : Pubkey
  pub pool : Pool
  pub owner : Pubkey
  pub position_key : Pubkey
  pub position : Position
  pub reward_mint : Mint
  pub reward_vault : TokenAccount
  pub owner_reward_account : TokenAccount
  pub vault_authority : Pubkey
  pub token_program : Pubkey

-- The constraints of `#[derive(Accounts)] struct Claim`.
unfoldable pub check_claim : Runtime → ClaimAccounts → Fallible (Unit {0})
unfolding check_position
check_claim R a = do
  check_position R a.pool_key a.pool a.owner a.position_key a.position
  constraint (a.pool.reward_vault == a.reward_vault.key) constraint_has_one
  constraint (a.pool.reward_mint == a.reward_mint.key) constraint_has_one
  constraint
      (finds R (reward_vault_seed ∷ Seed.key a.pool_key ∷ []) helix_staking a.reward_vault.key)
      constraint_seeds
  constraint (holds a.reward_vault a.reward_mint a.token_program) constraint_token
  constraint (holds_for a.owner_reward_account a.reward_mint a.owner a.token_program)
      constraint_token
  constraint
      (derives R (vault_authority_seed ∷ Seed.key a.pool_key ∷ []) a.pool.vault_authority_bump
        helix_staking a.vault_authority)
      constraint_seeds

pub record ClaimOutcome : Type 0 where
  pub pool : Pool
  pub position : Position
  pub reward_vault : TokenAccount
  pub owner_reward_account : TokenAccount
  pub event : RewardsClaimed

-- `claim`, once the accounts are checked.
unfoldable pub claim_handler : TokenProgram → ClaimAccounts → ℤ → Fallible ClaimOutcome
claim_handler T a now = do
  pool ← update_rewards a.pool now
  settled ← settle a.position pool.reward_per_token
  let amount = settled.pending_rewards
  require (ltb 0 amount) nothing_to_claim
  (vault, receiver) ←
      or_abort
        (T.transfer_checked a.reward_vault a.reward_mint a.owner_reward_account a.vault_authority
          amount a.reward_mint.decimals)
        cpi_failed
  total_rewards_paid ← ok_or (checked_add u64_max pool.total_rewards_paid amount) math_overflow
  ok (record {
    pool = record pool { total_rewards_paid = total_rewards_paid };
    position = record settled { pending_rewards = 0 };
    reward_vault = vault;
    owner_reward_account = receiver;
    event = record {
      pool = a.pool_key;
      position = a.position_key;
      owner = a.owner;
      amount = amount;
      timestamp = now;
    };
  })

-- The instruction `claim`.
unfoldable pub claim : Runtime → TokenProgram → ClaimAccounts → ℤ → Fallible ClaimOutcome
unfolding check_claim claim_handler
claim R T a now = check_claim R a >> claim_handler T a now

-- The accounts of `ClosePosition`.
pub record ClosePositionAccounts : Type 0 where
  pub pool_key : Pubkey
  pub pool : Pool
  pub owner : Pubkey
  pub position_key : Pubkey
  pub position : Position

-- The instruction `close_position`. If it succeeds, the framework's `close = owner` frees the
-- position's account.
unfoldable pub close_position : Runtime → ClosePositionAccounts → ℤ → Fallible PositionClosed
unfolding check_position
close_position R a now = do
  check_position R a.pool_key a.pool a.owner a.position_key a.position
  ensure_closable a.position
  ok (record {
    pool = a.pool_key;
    position = a.position_key;
    owner = a.owner;
    position_id = a.position.position_id;
    timestamp = now;
  })

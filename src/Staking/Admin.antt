-- ===== src/Staking/Admin.antt =====
-- programs/staking/src/instructions/initialize_pool.rs and admin.rs: creation, funding, the emission
-- rate, the pause and the two-step handover of the authority.
use helix_protocol.Prelude.{ℕ, Bool, false, not, none, some, [], ◌∷◌, ◌==◌, ltb, leb}
use helix_protocol.Prelude.Int.{ℤ, leb_ℤ}
use helix_protocol.Prelude.Machine.{u64_max, checked_add, checked_sub}
use helix_protocol.Prelude.Fallible.{
  custom, ok, ◌>>=◌, ◌>>◌, require, constraint, ok_or, or_abort, constraint_has_one,
  constraint_seeds, constraint_token, account_in_use, cpi_failed,
}
use helix_protocol.Anchor.{
  Pubkey, Seed, helix_staking, Runtime, derives, finds, Mint, TokenAccount, TokenProgram, holds,
  holds_for,
}
use helix_protocol.Staking.Types.{
  Pool, pool_seed, stake_vault_seed, reward_vault_seed, vault_authority_seed, max_reward_rate,
  not_authority, no_pending_authority, not_pending_authority, zero_amount, zero_after_fees,
  vault_balance_mismatch, reward_rate_too_high, invalid_reward_period, insufficient_reward_funding,
  math_overflow,
}
use helix_protocol.Staking.State.{Fallible, update_rewards, unpaid_liability, emission_for}
use helix_protocol.Staking.Events.{
  PoolInitialized, RewardsFunded, RewardRateChanged, PoolPauseToggled, AuthorityTransferProposed,
  AuthorityTransferAccepted,
}
use helix_protocol.Staking.Stake.{pool_seeds}

-- The accounts of `InitializePool`. The two vaults are created empty.
pub record InitializePoolAccounts : Type 0 where
  pub authority : Pubkey
  pub pool_key : Pubkey
  pub pool_in_use : Bool
  pub vault_authority : Pubkey
  pub stake_mint : Mint
  pub reward_mint : Mint
  pub stake_vault : Pubkey
  pub stake_vault_in_use : Bool
  pub reward_vault : Pubkey
  pub reward_vault_in_use : Bool
  pub token_program : Pubkey

-- The constraints of `#[derive(Accounts)] struct InitializePool`.
unfoldable pub check_initialize_pool : Runtime → InitializePoolAccounts → Fallible (Unit {0})
check_initialize_pool R a = do
  constraint
      (finds R (pool_seed ∷ Seed.key a.stake_mint.key ∷ Seed.key a.reward_mint.key ∷ [])
        helix_staking a.pool_key)
      constraint_seeds
  constraint (not a.pool_in_use) account_in_use
  constraint
      (finds R (vault_authority_seed ∷ Seed.key a.pool_key ∷ []) helix_staking a.vault_authority)
      constraint_seeds
  constraint (finds R (stake_vault_seed ∷ Seed.key a.pool_key ∷ []) helix_staking a.stake_vault)
      constraint_seeds
  constraint (not a.stake_vault_in_use) account_in_use
  constraint (finds R (reward_vault_seed ∷ Seed.key a.pool_key ∷ []) helix_staking a.reward_vault)
      constraint_seeds
  constraint (not a.reward_vault_in_use) account_in_use

-- The token account that `init` creates for a vault.
abbrev empty_vault : InitializePoolAccounts → Pubkey → Mint → TokenAccount
empty_vault a address m = record {
  key = address;
  mint = m.key;
  owner = a.vault_authority;
  program = a.token_program;
  amount = 0;
}

pub record InitializePoolOutcome : Type 0 where
  pub pool : Pool
  pub stake_vault : TokenAccount
  pub reward_vault : TokenAccount
  pub event : PoolInitialized

-- The instruction `initialize_pool`.
unfoldable pub initialize_pool :
    Runtime → InitializePoolAccounts → ℤ → Fallible InitializePoolOutcome
unfolding check_initialize_pool
initialize_pool R a now = do
  check_initialize_pool R a
  ok (record {
    pool = record {
      authority = a.authority;
      pending_authority = none;
      stake_mint = a.stake_mint.key;
      reward_mint = a.reward_mint.key;
      stake_vault = a.stake_vault;
      reward_vault = a.reward_vault;
      total_staked = 0;
      total_weighted = 0;
      reward_rate = 0;
      reward_period_end = now;
      reward_per_token = 0;
      last_update_ts = now;
      total_rewards_funded = 0;
      total_rewards_accrued = 0;
      total_rewards_paid = 0;
      position_count = 0;
      paused = false;
      bump =
          (R.find_program_address
            (pool_seed ∷ Seed.key a.stake_mint.key ∷ Seed.key a.reward_mint.key ∷ [])
            helix_staking).1;
      vault_authority_bump =
          (R.find_program_address (vault_authority_seed ∷ Seed.key a.pool_key ∷ [])
            helix_staking).1;
    };
    stake_vault = empty_vault a a.stake_vault a.stake_mint;
    reward_vault = empty_vault a a.reward_vault a.reward_mint;
    event = record {
      pool = a.pool_key;
      authority = a.authority;
      stake_mint = a.stake_mint.key;
      reward_mint = a.reward_mint.key;
      timestamp = now;
    };
  })

-- The accounts of `FundRewards`.
pub record FundRewardsAccounts : Type 0 where
  pub pool_key : Pubkey
  pub pool : Pool
  pub funder : Pubkey
  pub reward_mint : Mint
  pub funder_token_account : TokenAccount
  pub reward_vault : TokenAccount
  pub token_program : Pubkey

-- The constraints of `#[derive(Accounts)] struct FundRewards`.
unfoldable pub check_fund_rewards : Runtime → FundRewardsAccounts → Fallible (Unit {0})
check_fund_rewards R a = do
  constraint (derives R (pool_seeds a.pool) a.pool.bump helix_staking a.pool_key) constraint_seeds
  constraint (a.pool.reward_vault == a.reward_vault.key) constraint_has_one
  constraint (a.pool.reward_mint == a.reward_mint.key) constraint_has_one
  constraint (holds_for a.funder_token_account a.reward_mint a.funder a.token_program)
      constraint_token
  constraint
      (finds R (reward_vault_seed ∷ Seed.key a.pool_key ∷ []) helix_staking a.reward_vault.key)
      constraint_seeds
  constraint (holds a.reward_vault a.reward_mint a.token_program) constraint_token

pub record FundRewardsOutcome : Type 0 where
  pub pool : Pool
  pub funder_token_account : TokenAccount
  pub reward_vault : TokenAccount
  pub event : RewardsFunded

-- `fund_rewards`, once the accounts are checked.
unfoldable pub fund_rewards_handler :
    TokenProgram → FundRewardsAccounts → ℤ → ℕ → Fallible FundRewardsOutcome
fund_rewards_handler T a now amount = do
  require (ltb 0 amount) zero_amount
  (sender, vault) ←
      or_abort
        (T.transfer_checked a.funder_token_account a.reward_mint a.reward_vault a.funder amount
          a.reward_mint.decimals)
        cpi_failed
  credited ← ok_or (checked_sub vault.amount a.reward_vault.amount) vault_balance_mismatch
  require (ltb 0 credited) zero_after_fees
  total ← ok_or (checked_add u64_max a.pool.total_rewards_funded credited) math_overflow
  ok (record {
    pool = record (a.pool) { total_rewards_funded = total };
    funder_token_account = sender;
    reward_vault = vault;
    event = record {
      pool = a.pool_key;
      funder = a.funder;
      amount_credited = credited;
      total_funded = total;
      timestamp = now;
    };
  })

-- The instruction `fund_rewards`.
unfoldable pub fund_rewards :
    Runtime → TokenProgram → FundRewardsAccounts → ℤ → ℕ → Fallible FundRewardsOutcome
unfolding check_fund_rewards fund_rewards_handler
fund_rewards R T a now amount = check_fund_rewards R a >> fund_rewards_handler T a now amount

-- The accounts of `SetRewardRate`.
pub record SetRewardRateAccounts : Type 0 where
  pub pool_key : Pubkey
  pub pool : Pool
  pub authority : Pubkey
  pub reward_vault : TokenAccount

-- The constraints of `#[derive(Accounts)] struct SetRewardRate`.
unfoldable pub check_set_reward_rate : Runtime → SetRewardRateAccounts → Fallible (Unit {0})
check_set_reward_rate R a = do
  constraint (derives R (pool_seeds a.pool) a.pool.bump helix_staking a.pool_key) constraint_seeds
  constraint (a.pool.authority == a.authority) (custom not_authority)
  constraint (a.pool.reward_vault == a.reward_vault.key) constraint_has_one
  constraint
      (finds R (reward_vault_seed ∷ Seed.key a.pool_key ∷ []) helix_staking a.reward_vault.key)
      constraint_seeds

-- `set_reward_rate`, once the accounts are checked: the pool afterwards, and the event.
unfoldable pub set_reward_rate_handler :
    SetRewardRateAccounts → ℤ → ℕ → ℤ → Fallible (Pool × RewardRateChanged)
set_reward_rate_handler a now new_rate reward_period_end = do
  require (leb new_rate max_reward_rate) reward_rate_too_high
  require (leb_ℤ now reward_period_end) invalid_reward_period
  updated ← update_rewards a.pool now
  let pool = record updated { reward_period_end = reward_period_end }
  outstanding ← unpaid_liability pool
  committed ← emission_for pool new_rate now
  required ← ok_or (checked_add u64_max outstanding committed) math_overflow
  require (leb required a.reward_vault.amount) insufficient_reward_funding
  ok (
    record pool { reward_rate = new_rate },
    record {
      pool = a.pool_key;
      old_rate = pool.reward_rate;
      new_rate = new_rate;
      reward_period_end = reward_period_end;
      timestamp = now;
    },
  )

-- The instruction `set_reward_rate`.
unfoldable pub set_reward_rate :
    Runtime → SetRewardRateAccounts → ℤ → ℕ → ℤ → Fallible (Pool × RewardRateChanged)
unfolding check_set_reward_rate set_reward_rate_handler
set_reward_rate R a now new_rate reward_period_end =
    check_set_reward_rate R a >> set_reward_rate_handler a now new_rate reward_period_end

-- The accounts of `PoolAuthorityOnly`, and of `AcceptAuthority` with the successor as the signer.
pub record PoolSigner : Type 0 where
  pub pool_key : Pubkey
  pub pool : Pool
  pub signer : Pubkey

-- The constraints of `#[derive(Accounts)] struct PoolAuthorityOnly`.
unfoldable pub check_authority : Runtime → PoolSigner → Fallible (Unit {0})
check_authority R a = do
  constraint (derives R (pool_seeds a.pool) a.pool.bump helix_staking a.pool_key) constraint_seeds
  constraint (a.pool.authority == a.signer) (custom not_authority)

-- The instruction `set_paused`.
unfoldable pub set_paused : Runtime → PoolSigner → ℤ → Bool → Fallible (Pool × PoolPauseToggled)
unfolding check_authority
set_paused R a now paused = do
  check_authority R a
  ok (
    record (a.pool) { paused = paused },
    record { pool = a.pool_key; paused = paused; timestamp = now },
  )

-- The instruction `propose_authority`.
unfoldable pub propose_authority :
    Runtime → PoolSigner → ℤ → Pubkey → Fallible (Pool × AuthorityTransferProposed)
unfolding check_authority
propose_authority R a now new_authority = do
  check_authority R a
  ok (
    record (a.pool) { pending_authority = some new_authority },
    record {
      pool = a.pool_key;
      current_authority = a.pool.authority;
      pending_authority = new_authority;
      timestamp = now;
    },
  )

-- The instruction `accept_authority`.
unfoldable pub accept_authority :
    Runtime → PoolSigner → ℤ → Fallible (Pool × AuthorityTransferAccepted)
accept_authority R a now = do
  constraint (derives R (pool_seeds a.pool) a.pool.bump helix_staking a.pool_key) constraint_seeds
  pending ← ok_or a.pool.pending_authority no_pending_authority
  require (pending == a.signer) not_pending_authority
  ok (
    record (a.pool) { authority = pending; pending_authority = none },
    record {
      pool = a.pool_key;
      previous_authority = a.pool.authority;
      new_authority = pending;
      timestamp = now;
    },
  )

-- ===== src/Staking/System.antt =====
-- A pool in operation: its account, the accounts of all its open positions and its two vaults, and
-- the transactions that change them. A transaction is one successful instruction on the accounts as
-- they are, or a transfer of tokens to a vault by anyone.
pub mod Preserves
pub mod Solvency
pub mod Claims
pub mod Exit
use helix_protocol.Prelude.{ℕ, ◌+◌, ◌≡◌, ◌≢◌, Bool, List, [], ◌∷◌, some}
use helix_protocol.Prelude.Lists.{get_elem?, set, erase_at}
use helix_protocol.Prelude.Int.{ℤ}
use helix_protocol.Prelude.Fallible.{ok}
use helix_protocol.Anchor.{Pubkey, Runtime, TokenAccount, TokenProgram}
use helix_protocol.Staking.Types.{Pool, Position, LockTier}
use helix_protocol.Staking.Events.{
  PositionClosed, RewardRateChanged, PoolPauseToggled, AuthorityTransferProposed,
  AuthorityTransferAccepted,
}
use helix_protocol.Staking.Stake.{StakeAccounts, StakeOutcome, stake}
use helix_protocol.Staking.Withdraw.{
  UnstakeAccounts, UnstakeOutcome, unstake, ClaimAccounts, ClaimOutcome, claim,
  ClosePositionAccounts, close_position,
}
use helix_protocol.Staking.Admin.{
  InitializePoolOutcome, FundRewardsAccounts, FundRewardsOutcome, fund_rewards,
  SetRewardRateAccounts, set_reward_rate, PoolSigner, set_paused, propose_authority,
  accept_authority,
}

pub record System : Type 0 where
  pub pool : Pool
  pub positions : List Position
  pub stake_vault : TokenAccount
  pub reward_vault : TokenAccount

-- The system that `initialize_pool` creates.
abbrev pub created : InitializePoolOutcome → System
created out = record {
  pool = out.pool;
  positions = [];
  stake_vault = out.stake_vault;
  reward_vault = out.reward_vault;
}

-- In `stakes`, `unstakes`, `claims` and `funds` the signer's token account is another account than
-- the vault: the owner of a vault is a program address, which signs for no one.
pub data Step (R : Runtime) (T : TokenProgram) (s t : System) : Type 0 where
  stakes :
      (a : StakeAccounts) (now : ℤ) (id amount : ℕ) (tier : LockTier) (out : StakeOutcome)
      → a.pool ≡ s.pool
      → a.stake_vault ≡ s.stake_vault
      → a.owner_token_account.key ≢ a.stake_vault.key
      → stake R T a now id amount tier ≡ ok out
      → t ≡ record s {
        pool = out.pool;
        positions = out.position ∷ s.positions;
        stake_vault = out.stake_vault;
      }
      → Step R T s t
  unstakes :
      (a : UnstakeAccounts) (i : ℕ) (now : ℤ) (amount : ℕ) (out : UnstakeOutcome)
      → a.pool ≡ s.pool
      → a.stake_vault ≡ s.stake_vault
      → get_elem? s.positions i ≡ some a.position
      → a.stake_vault.key ≢ a.owner_token_account.key
      → unstake R T a now amount ≡ ok out
      → t ≡ record s {
        pool = out.pool;
        positions = set s.positions i out.position;
        stake_vault = out.stake_vault;
      }
      → Step R T s t
  claims :
      (a : ClaimAccounts) (i : ℕ) (now : ℤ) (out : ClaimOutcome)
      → a.pool ≡ s.pool
      → a.reward_vault ≡ s.reward_vault
      → get_elem? s.positions i ≡ some a.position
      → a.reward_vault.key ≢ a.owner_reward_account.key
      → claim R T a now ≡ ok out
      → t ≡ record s {
        pool = out.pool;
        positions = set s.positions i out.position;
        reward_vault = out.reward_vault;
      }
      → Step R T s t
  closes :
      (a : ClosePositionAccounts) (i : ℕ) (now : ℤ) (event : PositionClosed)
      → a.pool ≡ s.pool
      → get_elem? s.positions i ≡ some a.position
      → close_position R a now ≡ ok event
      → t ≡ record s { positions = erase_at s.positions i }
      → Step R T s t
  funds :
      (a : FundRewardsAccounts) (now : ℤ) (amount : ℕ) (out : FundRewardsOutcome)
      → a.pool ≡ s.pool
      → a.reward_vault ≡ s.reward_vault
      → a.funder_token_account.key ≢ a.reward_vault.key
      → fund_rewards R T a now amount ≡ ok out
      → t ≡ record s { pool = out.pool; reward_vault = out.reward_vault }
      → Step R T s t
  retunes :
      (a : SetRewardRateAccounts) (now : ℤ) (new_rate : ℕ) (period_end : ℤ)
      (out : Pool × RewardRateChanged)
      → a.pool ≡ s.pool
      → a.reward_vault ≡ s.reward_vault
      → set_reward_rate R a now new_rate period_end ≡ ok out
      → t ≡ record s { pool = out.0 }
      → Step R T s t
  pauses :
      (a : PoolSigner) (now : ℤ) (paused : Bool) (out : Pool × PoolPauseToggled)
      → a.pool ≡ s.pool
      → set_paused R a now paused ≡ ok out
      → t ≡ record s { pool = out.0 }
      → Step R T s t
  proposes :
      (a : PoolSigner) (now : ℤ) (new : Pubkey) (out : Pool × AuthorityTransferProposed)
      → a.pool ≡ s.pool
      → propose_authority R a now new ≡ ok out
      → t ≡ record s { pool = out.0 }
      → Step R T s t
  accepts :
      (a : PoolSigner) (now : ℤ) (out : Pool × AuthorityTransferAccepted)
      → a.pool ≡ s.pool
      → accept_authority R a now ≡ ok out
      → t ≡ record s { pool = out.0 }
      → Step R T s t
  gifts :
      (to_stake to_reward : ℕ)
      → t ≡ record s {
        stake_vault = record (s.stake_vault) { amount = s.stake_vault.amount + to_stake };
        reward_vault = record (s.reward_vault) { amount = s.reward_vault.amount + to_reward };
      }
      → Step R T s t

pub data Reach (R : Runtime) (T : TokenProgram) (s : System) : System → Type 0 where
  here : Reach R T s s
  next : {t u : System} → Reach R T s t → Step R T t u → Reach R T s u

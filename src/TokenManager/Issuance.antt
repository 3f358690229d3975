-- ===== src/TokenManager/Issuance.antt =====
-- programs/token-manager/src/instructions/issuance.rs: minting and burning.
use helix_protocol.Prelude.{ℕ, not, [], ◌∷◌, ◌==◌, ltb}
use helix_protocol.Prelude.Int.{ℤ}
use helix_protocol.Prelude.Machine.{u64_max, checked_add}
use helix_protocol.Prelude.Fallible.{
  custom, ok, ◌>>=◌, ◌>>◌, require, constraint, ok_or, or_abort, constraint_has_one,
  constraint_seeds, constraint_token, cpi_failed,
}
use helix_protocol.Anchor.{
  Pubkey, Seed, helix_token_manager, Runtime, derives, Mint, TokenAccount, TokenProgram, holds,
  holds_for,
}
use helix_protocol.TokenManager.Types.{
  TokenConfig, Minter, mint_authority_seed, zero_amount, paused, minter_disabled, math_overflow,
}
use helix_protocol.TokenManager.State.{Fallible, accrue}
use helix_protocol.TokenManager.Events.{TokensMinted, TokensBurned}
use helix_protocol.TokenManager.Registry.{config_seeds, minter_seeds}

-- The accounts of `MintTokens`.
pub record MintTokensAccounts : Type 0 where
  pub config_key : Pubkey
  pub config : TokenConfig
  pub minter_key : Pubkey
  pub minter : Minter
  pub authority : Pubkey
  pub mint : Mint
  pub mint_authority : Pubkey
  pub recipient : TokenAccount
  pub token_program : Pubkey

-- The constraints of `#[derive(Accounts)] struct MintTokens`.
unfoldable pub check_mint_tokens : Runtime → MintTokensAccounts → Fallible (Unit {0})
check_mint_tokens R a = do
  constraint (derives R (config_seeds a.config) a.config.bump helix_token_manager a.config_key)
      constraint_seeds
  constraint (a.config.mint == a.mint.key) constraint_has_one
  constraint
      (derives R (minter_seeds a.config_key a.authority) a.minter.bump helix_token_manager
        a.minter_key)
      constraint_seeds
  constraint (a.minter.config == a.config_key) constraint_has_one
  constraint (a.minter.authority == a.authority) (custom minter_disabled)
  constraint
      (derives R (mint_authority_seed ∷ Seed.key a.config_key ∷ []) a.config.mint_authority_bump
        helix_token_manager a.mint_authority)
      constraint_seeds
  constraint (holds a.recipient a.mint a.token_program) constraint_token

pub record MintOutcome : Type 0 where
  pub config : TokenConfig
  pub minter : Minter
  pub recipient : TokenAccount
  pub event : TokensMinted

-- `mint_to`, once the accounts are checked.
unfoldable pub mint_to_handler : TokenProgram → MintTokensAccounts → ℤ → ℕ → Fallible MintOutcome
mint_to_handler T a now amount = do
  require (ltb 0 amount) zero_amount
  require (not a.config.paused) paused
  minter ← accrue a.minter amount now
  recipient ← or_abort (T.mint_to a.mint a.recipient a.mint_authority amount) cpi_failed
  total ← ok_or (checked_add u64_max a.config.total_minted amount) math_overflow
  ok (record {
    config = record (a.config) { total_minted = total };
    minter = minter;
    recipient = recipient;
    event = record {
      config = a.config_key;
      minter = a.minter_key;
      recipient = a.recipient.key;
      amount = amount;
      total_minted = total;
      timestamp = now;
    };
  })

-- The instruction `mint_to`.
unfoldable pub mint_to : Runtime → TokenProgram → MintTokensAccounts → ℤ → ℕ → Fallible MintOutcome
unfolding check_mint_tokens mint_to_handler
mint_to R T a now amount = check_mint_tokens R a >> mint_to_handler T a now amount

-- The accounts of `BurnTokens`.
pub record BurnTokensAccounts : Type 0 where
  pub config_key : Pubkey
  pub config : TokenConfig
  pub mint : Mint
  pub source : TokenAccount
  pub owner : Pubkey
  pub token_program : Pubkey

-- The constraints of `#[derive(Accounts)] struct BurnTokens`.
unfoldable pub check_burn_tokens : Runtime → BurnTokensAccounts → Fallible (Unit {0})
check_burn_tokens R a = do
  constraint (derives R (config_seeds a.config) a.config.bump helix_token_manager a.config_key)
      constraint_seeds
  constraint (a.config.mint == a.mint.key) constraint_has_one
  constraint (holds_for a.source a.mint a.owner a.token_program) constraint_token

pub record BurnOutcome : Type 0 where
  pub config : TokenConfig
  pub source : TokenAccount
  pub event : TokensBurned

-- The instruction `burn`.
unfoldable pub burn : Runtime → TokenProgram → BurnTokensAccounts → ℤ → ℕ → Fallible BurnOutcome
unfolding check_burn_tokens
burn R T a now amount = do
  check_burn_tokens R a
  require (ltb 0 amount) zero_amount
  source ← or_abort (T.burn a.mint a.source a.owner amount) cpi_failed
  total ← ok_or (checked_add u64_max a.config.total_burned amount) math_overflow
  ok (record {
    config = record (a.config) { total_burned = total };
    source = source;
    event = record {
      config = a.config_key;
      source = a.source.key;
      amount = amount;
      total_burned = total;
      timestamp = now;
    };
  })

-- ===== src/Treasury/Funds.antt =====
-- programs/treasury/src/instructions/initialize.rs and funds.rs: creation and configuration, deposits
-- and the spends that governance orders.
use helix_protocol.Prelude.{ℕ, Bool, not, List, [], ◌∷◌, ◌==◌, ltb, leb, ◌&&◌}
use helix_protocol.Prelude.Int.{ℤ, leb_ℤ}
use helix_protocol.Prelude.Machine.{u64_max, checked_add, checked_sub}
use helix_protocol.Prelude.Fallible.{
  custom, ok, ◌>>=◌, ◌>>◌, require, constraint, ok_or, or_abort, constraint_has_one,
  constraint_seeds, constraint_token, account_in_use, cpi_failed,
}
use helix_protocol.Anchor.{
  Pubkey, Seed, helix_treasury, Runtime, derives, finds, Mint, TokenAccount, TokenProgram, holds,
  holds_for,
}
use helix_protocol.Treasury.Types.{
  Treasury, treasury_seed, vault_seed, vault_authority_seed, min_epoch_duration, max_epoch_duration,
  not_governance_executor, zero_amount, invalid_epoch_duration, insufficient_uncommitted_balance,
  zero_after_fees, vault_balance_mismatch, math_overflow,
}
use helix_protocol.Treasury.State.{
  Fallible, epoch_at, charge_epoch_budget, remaining_budget, uncommitted,
}
use helix_protocol.Treasury.Events.{
  TreasuryInitialized, Deposited, Spent, SpendCapChanged, GovernanceExecutorChanged,
}

abbrev pub treasury_seeds : Treasury → List Seed
treasury_seeds t = treasury_seed ∷ Seed.key t.mint ∷ []

-- The accounts of `InitializeTreasury`. The vault is created empty.
pub record InitializeTreasuryAccounts : Type 0 where
  pub governance_executor : Pubkey
  pub treasury_key : Pubkey
  pub treasury_in_use : Bool
  pub vault_authority : Pubkey
  pub mint : Mint
  pub vault : Pubkey
  pub vault_in_use : Bool
  pub token_program : Pubkey

-- The constraints of `#[derive(Accounts)] struct InitializeTreasury`.
unfoldable pub check_initialize_treasury :
    Runtime → InitializeTreasuryAccounts → Fallible (Unit {0})
check_initialize_treasury R a = do
  constraint (finds R (treasury_seed ∷ Seed.key a.mint.key ∷ []) helix_treasury a.treasury_key)
      constraint_seeds
  constraint (not a.treasury_in_use) account_in_use
  constraint
      (finds R (vault_authority_seed ∷ Seed.key a.treasury_key ∷ []) helix_treasury
        a.vault_authority)
      constraint_seeds
  constraint (finds R (vault_seed ∷ Seed.key a.treasury_key ∷ []) helix_treasury a.vault)
      constraint_seeds
  constraint (not a.vault_in_use) account_in_use

pub record InitializeTreasuryOutcome : Type 0 where
  pub treasury : Treasury
  pub vault : TokenAccount
  pub event : TreasuryInitialized

-- `(MIN_EPOCH_DURATION..=MAX_EPOCH_DURATION).contains(&epoch_duration)`.
abbrev pub valid_epoch_duration : ℤ → Bool
valid_epoch_duration d = leb_ℤ min_epoch_duration d && leb_ℤ d max_epoch_duration

-- The instruction `initialize_treasury`.
unfoldable pub initialize_treasury :
    Runtime → InitializeTreasuryAccounts → ℤ → ℕ → ℤ → Fallible InitializeTreasuryOutcome
unfolding check_initialize_treasury
initialize_treasury R a now epoch_spend_cap epoch_duration = do
  check_initialize_treasury R a
  require (valid_epoch_duration epoch_duration) invalid_epoch_duration
  let blank : Treasury = record {
    governance_executor = a.governance_executor;
    mint = a.mint.key;
    vault = a.vault;
    total_deposited = 0;
    total_spent = 0;
    committed_to_streams = 0;
    epoch_duration = epoch_duration;
    epoch_spend_cap = epoch_spend_cap;
    spent_this_epoch = 0;
    current_epoch = 0;
    stream_count = 0;
    bump = (R.find_program_address (treasury_seed ∷ Seed.key a.mint.key ∷ []) helix_treasury).1;
    vault_authority_bump =
        (R.find_program_address (vault_authority_seed ∷ Seed.key a.treasury_key ∷ [])
          helix_treasury).1;
  }
  epoch ← epoch_at blank now
  ok (record {
    treasury = record blank { current_epoch = epoch };
    vault = record {
      key = a.vault;
      mint = a.mint.key;
      owner = a.vault_authority;
      program = a.token_program;
      amount = 0;
    };
    event = record {
      treasury = a.treasury_key;
      governance_executor = a.governance_executor;
      mint = a.mint.key;
      epoch_spend_cap = epoch_spend_cap;
      epoch_duration = epoch_duration;
      timestamp = now;
    };
  })

-- The accounts of `GovernanceOnly`.
pub record GovernanceOnly : Type 0 where
  pub treasury_key : Pubkey
  pub treasury : Treasury
  pub governance_executor : Pubkey

-- The constraints of `#[derive(Accounts)] struct GovernanceOnly`, which `Spend`, `CreateStream` and
-- `RevokeStream` also make.
unfoldable pub check_governance : Runtime → GovernanceOnly → Fallible (Unit {0})
check_governance R a = do
  constraint (derives R (treasury_seeds a.treasury) a.treasury.bump helix_treasury a.treasury_key)
      constraint_seeds
  constraint (a.treasury.governance_executor == a.governance_executor)
      (custom not_governance_executor)

-- The instruction `set_spend_cap`.
unfoldable pub set_spend_cap :
    Runtime → GovernanceOnly → ℤ → ℕ → ℤ → Fallible (Treasury × SpendCapChanged)
unfolding check_governance
set_spend_cap R a now new_cap epoch_duration = do
  check_governance R a
  require (valid_epoch_duration epoch_duration) invalid_epoch_duration
  ok (
    record (a.treasury) { epoch_spend_cap = new_cap; epoch_duration = epoch_duration },
    record {
      treasury = a.treasury_key;
      old_cap = a.treasury.epoch_spend_cap;
      new_cap = new_cap;
      epoch_duration = epoch_duration;
      timestamp = now;
    },
  )

-- The instruction `set_governance_executor`.
unfoldable pub set_governance_executor :
    Runtime → GovernanceOnly → ℤ → Pubkey → Fallible (Treasury × GovernanceExecutorChanged)
unfolding check_governance
set_governance_executor R a now new_executor = do
  check_governance R a
  ok (
    record (a.treasury) { governance_executor = new_executor },
    record {
      treasury = a.treasury_key;
      previous_executor = a.treasury.governance_executor;
      new_executor = new_executor;
      timestamp = now;
    },
  )

-- The accounts of `Deposit`.
pub record DepositAccounts : Type 0 where
  pub treasury_key : Pubkey
  pub treasury : Treasury
  pub depositor : Pubkey
  pub mint : Mint
  pub depositor_token_account : TokenAccount
  pub vault : TokenAccount
  pub token_program : Pubkey

-- The constraints of `#[derive(Accounts)] struct Deposit`.
unfoldable pub check_deposit : Runtime → DepositAccounts → Fallible (Unit {0})
check_deposit R a = do
  constraint (derives R (treasury_seeds a.treasury) a.treasury.bump helix_treasury a.treasury_key)
      constraint_seeds
  constraint (a.treasury.vault == a.vault.key) constraint_has_one
  constraint (a.treasury.mint == a.mint.key) constraint_has_one
  constraint (holds_for a.depositor_token_account a.mint a.depositor a.token_program)
      constraint_token
  constraint (finds R (vault_seed ∷ Seed.key a.treasury_key ∷ []) helix_treasury a.vault.key)
      constraint_seeds
  constraint (holds a.vault a.mint a.token_program) constraint_token

pub record DepositOutcome : Type 0 where
  pub treasury : Treasury
  pub depositor_token_account : TokenAccount
  pub vault : TokenAccount
  pub event : Deposited

-- The instruction `deposit`.
unfoldable pub deposit : Runtime → TokenProgram → DepositAccounts → ℤ → ℕ → Fallible DepositOutcome
unfolding check_deposit
deposit R T a now amount = do
  check_deposit R a
  require (ltb 0 amount) zero_amount
  (sender, vault) ←
      or_abort
        (T.transfer_checked a.depositor_token_account a.mint a.vault a.depositor amount
          a.mint.decimals)
        cpi_failed
  credited ← ok_or (checked_sub vault.amount a.vault.amount) vault_balance_mismatch
  require (ltb 0 credited) zero_after_fees
  total ← ok_or (checked_add u64_max a.treasury.total_deposited credited) math_overflow
  ok (record {
    treasury = record (a.treasury) { total_deposited = total };
    depositor_token_account = sender;
    vault = vault;
    event = record {
      treasury = a.treasury_key;
      depositor = a.depositor;
      amount_credited = credited;
      total_deposited = total;
      timestamp = now;
    };
  })

-- The accounts of `Spend`.
pub record SpendAccounts : Type 0 where
  pub treasury_key : Pubkey
  pub treasury : Treasury
  pub governance_executor : Pubkey
  pub mint : Mint
  pub vault : TokenAccount
  pub destination : TokenAccount
  pub vault_authority : Pubkey
  pub token_program : Pubkey

-- The constraints of `#[derive(Accounts)] struct Spend`.
unfoldable pub check_spend : Runtime → SpendAccounts → Fallible (Unit {0})
unfolding check_governance
check_spend R a = do
  check_governance R (record {
    treasury_key = a.treasury_key;
    treasury = a.treasury;
    governance_executor = a.governance_executor;
  })
  constraint (a.treasury.vault == a.vault.key) constraint_has_one
  constraint (a.treasury.mint == a.mint.key) constraint_has_one
  constraint (finds R (vault_seed ∷ Seed.key a.treasury_key ∷ []) helix_treasury a.vault.key)
      constraint_seeds
  constraint (holds a.vault a.mint a.token_program) constraint_token
  constraint (holds a.destination a.mint a.token_program) constraint_token
  constraint
      (derives R (vault_authority_seed ∷ Seed.key a.treasury_key ∷ [])
        a.treasury.vault_authority_bump helix_treasury a.vault_authority)
      constraint_seeds

pub record SpendOutcome : Type 0 where
  pub treasury : Treasury
  pub vault : TokenAccount
  pub destination : TokenAccount
  pub event : Spent

-- `spend`, once the accounts are checked.
unfoldable pub spend_handler : TokenProgram → SpendAccounts → ℤ → ℕ → Fallible SpendOutcome
spend_handler T a now amount = do
  require (ltb 0 amount) zero_amount
  require (leb amount (uncommitted a.treasury a.vault.amount)) insufficient_uncommitted_balance
  charged ← charge_epoch_budget a.treasury amount now
  (vault, destination) ←
      or_abort
        (T.transfer_checked a.vault a.mint a.destination a.vault_authority amount a.mint.decimals)
        cpi_failed
  total_spent ← ok_or (checked_add u64_max charged.total_spent amount) math_overflow
  let treasury = record charged { total_spent = total_spent }
  remaining ← remaining_budget treasury now
  ok (record {
    treasury = treasury;
    vault = vault;
    destination = destination;
    event = record {
      treasury = a.treasury_key;
      destination = a.destination.key;
      amount = amount;
      remaining_epoch_budget = remaining;
      total_spent = total_spent;
      timestamp = now;
    };
  })

-- The instruction `spend`.
unfoldable pub spend : Runtime → TokenProgram → SpendAccounts → ℤ → ℕ → Fallible SpendOutcome
unfolding check_spend spend_handler
spend R T a now amount = check_spend R a >> spend_handler T a now amount

-- ===== src/TokenManager/Registry.antt =====
-- programs/token-manager/src/instructions/initialize_token.rs, minter_registry.rs and admin.rs.
use Prim.Native.String.{len}
use helix_protocol.Prelude.{
  ℕ, String, Bool, true, false, not, none, some, List, [], ◌∷◌, ◌==◌, ltb, leb, ◌&&◌,
}
use helix_protocol.Prelude.Int.{ℤ, leb_ℤ}
use helix_protocol.Prelude.Machine.{u16_max, checked_add, saturating_sub}
use helix_protocol.Prelude.Fallible.{
  custom, ok, ◌>>=◌, ◌>>◌, require, constraint, ok_or, constraint_has_one, constraint_seeds,
  account_in_use,
}
use helix_protocol.Anchor.{Pubkey, Seed, helix_token_manager, Runtime, derives, finds, Mint}
use helix_protocol.TokenManager.Types.{
  TokenConfig, Minter, config_seed, mint_authority_seed, minter_seed, max_name_len, max_symbol_len,
  max_uri_len, min_epoch_duration, max_minters, not_admin, no_pending_admin, not_pending_admin,
  admin_unchanged, invalid_epoch_duration, minter_registry_full, metadata_too_long, math_overflow,
}
use helix_protocol.TokenManager.State.{Fallible, epoch_at}
use helix_protocol.TokenManager.Events.{
  TokenInitialized, MinterRegistered, MinterUpdated, MinterRevoked, AdminTransferProposed,
  AdminTransferCancelled, AdminTransferAccepted, PauseToggled,
}

pub record InitializeTokenArgs : Type 0 where
  pub decimals : ℕ
  pub name : String
  pub symbol : String
  pub uri : String

-- `InitializeTokenArgs::validate`. The length of a text is its number of bytes.
unfoldable pub validate : InitializeTokenArgs → Fallible (Unit {0})
validate args =
    require
      (leb (len args.name) max_name_len
        && leb (len args.symbol) max_symbol_len
        && leb (len args.uri) max_uri_len)
      metadata_too_long

-- The accounts of `InitializeToken`.
pub record InitializeTokenAccounts : Type 0 where
  pub admin : Pubkey
  pub config_key : Pubkey
  pub config_in_use : Bool
  pub mint_authority : Pubkey
  pub mint : Pubkey
  pub mint_in_use : Bool

-- The constraints of `#[derive(Accounts)] struct InitializeToken`.
unfoldable pub check_initialize_token : Runtime → InitializeTokenAccounts → Fallible (Unit {0})
check_initialize_token R a = do
  constraint (finds R (config_seed ∷ Seed.key a.mint ∷ []) helix_token_manager a.config_key)
      constraint_seeds
  constraint (not a.config_in_use) account_in_use
  constraint
      (finds R (mint_authority_seed ∷ Seed.key a.config_key ∷ []) helix_token_manager
        a.mint_authority)
      constraint_seeds
  constraint (not a.mint_in_use) account_in_use

-- The instruction `initialize_token`: the config, the mint that `init` creates, and the event.
unfoldable pub initialize_token :
    Runtime
    → InitializeTokenAccounts
    → ℤ
    → InitializeTokenArgs
    → Fallible (TokenConfig × Mint × TokenInitialized)
unfolding check_initialize_token validate
initialize_token R a now args = do
  check_initialize_token R a
  validate args
  ok (
    record {
      admin = a.admin;
      pending_admin = none;
      mint = a.mint;
      mint_authority_bump =
          (R.find_program_address (mint_authority_seed ∷ Seed.key a.config_key ∷ [])
            helix_token_manager).1;
      bump = (R.find_program_address (config_seed ∷ Seed.key a.mint ∷ []) helix_token_manager).1;
      paused = false;
      total_minted = 0;
      total_burned = 0;
      minter_count = 0;
    },
    record { key = a.mint; decimals = args.decimals },
    record {
      config = a.config_key;
      mint = a.mint;
      admin = a.admin;
      decimals = args.decimals;
      timestamp = now;
    },
  )

-- The accounts of `AdminOnly`; of `AcceptAdmin` too, with the successor as the signer.
pub record ConfigSigner : Type 0 where
  pub config_key : Pubkey
  pub config : TokenConfig
  pub signer : Pubkey

abbrev pub config_seeds : TokenConfig → List Seed
config_seeds c = config_seed ∷ Seed.key c.mint ∷ []

-- The constraints of `#[derive(Accounts)] struct AdminOnly`, which the registry's accounts also make.
unfoldable pub check_admin : Runtime → ConfigSigner → Fallible (Unit {0})
check_admin R a = do
  constraint (derives R (config_seeds a.config) a.config.bump helix_token_manager a.config_key)
      constraint_seeds
  constraint (a.config.admin == a.signer) (custom not_admin)

-- The accounts of `RegisterMinter`.
pub record RegisterMinterAccounts : Type 0 where
  pub admin : ConfigSigner
  pub minter_key : Pubkey
  pub minter_in_use : Bool

abbrev pub minter_seeds : Pubkey → Pubkey → List Seed
minter_seeds config authority = minter_seed ∷ Seed.key config ∷ Seed.key authority ∷ []

-- The instruction `register_minter`.
unfoldable pub register_minter :
    Runtime
    → RegisterMinterAccounts
    → ℤ
    → Pubkey
    → ℕ
    → ℤ
    → Fallible (TokenConfig × Minter × MinterRegistered)
unfolding check_admin
register_minter R a now authority epoch_cap epoch_duration = do
  let config_key = a.admin.config_key
  let config = a.admin.config
  check_admin R a.admin
  constraint (finds R (minter_seeds config_key authority) helix_token_manager a.minter_key)
      constraint_seeds
  constraint (not a.minter_in_use) account_in_use
  require (leb_ℤ min_epoch_duration epoch_duration) invalid_epoch_duration
  require (ltb config.minter_count max_minters) minter_registry_full
  let blank : Minter = record {
    config = config_key;
    authority = authority;
    epoch_cap = epoch_cap;
    minted_this_epoch = 0;
    current_epoch = 0;
    epoch_duration = epoch_duration;
    total_minted = 0;
    enabled = true;
    bump = (R.find_program_address (minter_seeds config_key authority) helix_token_manager).1;
  }
  epoch ← epoch_at blank now
  count ← ok_or (checked_add u16_max config.minter_count 1) math_overflow
  ok (
    record config { minter_count = count },
    record blank { current_epoch = epoch },
    record {
      config = config_key;
      minter = a.minter_key;
      authority = authority;
      epoch_cap = epoch_cap;
      epoch_duration = epoch_duration;
      timestamp = now;
    },
  )

-- The accounts of `ModifyMinter` and of `RevokeMinter`.
pub record MinterAccounts : Type 0 where
  pub admin : ConfigSigner
  pub minter_key : Pubkey
  pub minter : Minter

-- The constraints of `#[derive(Accounts)] struct ModifyMinter` and `struct RevokeMinter`.
unfoldable pub check_minter : Runtime → MinterAccounts → Fallible (Unit {0})
unfolding check_admin
check_minter R a = do
  check_admin R a.admin
  constraint
      (derives R (minter_seeds a.admin.config_key a.minter.authority) a.minter.bump
        helix_token_manager a.minter_key)
      constraint_seeds
  constraint (a.minter.config == a.admin.config_key) constraint_has_one

-- The instruction `update_minter`.
unfoldable pub update_minter :
    Runtime → MinterAccounts → ℤ → ℕ → Bool → Fallible (Minter × MinterUpdated)
unfolding check_minter
update_minter R a now epoch_cap enabled = do
  check_minter R a
  ok (
    record (a.minter) { epoch_cap = epoch_cap; enabled = enabled },
    record {
      config = a.admin.config_key;
      minter = a.minter_key;
      epoch_cap = epoch_cap;
      enabled = enabled;
      timestamp = now;
    },
  )

-- The instruction `revoke_minter`.
unfoldable pub revoke_minter :
    Runtime → MinterAccounts → ℤ → Fallible (TokenConfig × Minter × MinterRevoked)
unfolding check_minter
revoke_minter R a now = do
  check_minter R a
  ok (
    record (a.admin.config) { minter_count = saturating_sub a.admin.config.minter_count 1 },
    record (a.minter) { enabled = false; epoch_cap = 0 },
    record {
      config = a.admin.config_key;
      minter = a.minter_key;
      authority = a.minter.authority;
      total_minted = a.minter.total_minted;
      timestamp = now;
    },
  )

-- The instruction `propose_admin`.
unfoldable pub propose_admin :
    Runtime → ConfigSigner → ℤ → Pubkey → Fallible (TokenConfig × AdminTransferProposed)
unfolding check_admin
propose_admin R a now new_admin = do
  check_admin R a
  require (not (new_admin == a.config.admin)) admin_unchanged
  ok (
    record (a.config) { pending_admin = some new_admin },
    record {
      config = a.config_key;
      current_admin = a.config.admin;
      pending_admin = new_admin;
      timestamp = now;
    },
  )

-- The instruction `cancel_admin_transfer`.
unfoldable pub cancel_admin_transfer :
    Runtime → ConfigSigner → ℤ → Fallible (TokenConfig × AdminTransferCancelled)
unfolding check_admin
cancel_admin_transfer R a now = do
  check_admin R a
  cancelled ← ok_or a.config.pending_admin no_pending_admin
  ok (
    record (a.config) { pending_admin = none },
    record {
      config = a.config_key;
      admin = a.config.admin;
      cancelled_admin = cancelled;
      timestamp = now;
    },
  )

-- The instruction `accept_admin`.
unfoldable pub accept_admin :
    Runtime → ConfigSigner → ℤ → Fallible (TokenConfig × AdminTransferAccepted)
accept_admin R a now = do
  constraint (derives R (config_seeds a.config) a.config.bump helix_token_manager a.config_key)
      constraint_seeds
  pending ← ok_or a.config.pending_admin no_pending_admin
  require (pending == a.signer) not_pending_admin
  ok (
    record (a.config) { admin = pending; pending_admin = none },
    record {
      config = a.config_key;
      previous_admin = a.config.admin;
      new_admin = pending;
      timestamp = now;
    },
  )

-- The instruction `set_paused`.
unfoldable pub set_paused :
    Runtime → ConfigSigner → ℤ → Bool → Fallible (TokenConfig × PauseToggled)
unfolding check_admin
set_paused R a now paused = do
  check_admin R a
  ok (
    record (a.config) { paused = paused },
    record { config = a.config_key; paused = paused; admin = a.config.admin; timestamp = now },
  )

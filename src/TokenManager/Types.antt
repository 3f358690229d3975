-- ===== src/TokenManager/Types.antt =====
-- programs/token-manager/src/constants.rs, errors.rs, the data of state.rs and events.rs.
use helix_protocol.Prelude.{ℕ, Bool, Option}
use helix_protocol.Prelude.Int.{ℤ, pos}
use helix_protocol.Anchor.{Pubkey, Seed}

abbrev pub config_seed : Seed
config_seed = Seed.text "config"

abbrev pub mint_authority_seed : Seed
mint_authority_seed = Seed.text "mint_authority"

abbrev pub minter_seed : Seed
minter_seed = Seed.text "minter"

abbrev pub max_name_len : ℕ
max_name_len = 32

abbrev pub max_symbol_len : ℕ
max_symbol_len = 10

abbrev pub max_uri_len : ℕ
max_uri_len = 200

abbrev pub min_epoch_duration : ℤ
min_epoch_duration = pos 3_600

abbrev pub max_minters : ℕ
max_minters = 16

pub data TokenManagerError : Type 0 where
  not_admin no_pending_admin not_pending_admin admin_unchanged paused : TokenManagerError
  minter_disabled epoch_cap_exceeded invalid_epoch_duration : TokenManagerError
  minter_registry_full zero_amount metadata_too_long : TokenManagerError
  unexpected_mint_authority math_overflow : TokenManagerError

pub record TokenConfig : Type 0 where
  pub admin : Pubkey
  pub pending_admin : Option Pubkey
  pub mint : Pubkey
  pub mint_authority_bump : ℕ
  pub bump : ℕ
  pub paused : Bool
  pub total_minted : ℕ
  pub total_burned : ℕ
  pub minter_count : ℕ

pub record Minter : Type 0 where
  pub config : Pubkey
  pub authority : Pubkey
  pub epoch_cap : ℕ
  pub minted_this_epoch : ℕ
  pub current_epoch : ℕ
  pub epoch_duration : ℤ
  pub total_minted : ℕ
  pub enabled : Bool
  pub bump : ℕ

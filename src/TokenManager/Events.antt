-- ===== src/TokenManager/Events.antt =====
-- programs/token-manager/src/events.rs.
use helix_protocol.Prelude.{ℕ, Bool}
use helix_protocol.Prelude.Int.{ℤ}
use helix_protocol.Anchor.{Pubkey}

pub record TokenInitialized : Type 0 where
  pub config : Pubkey
  pub mint : Pubkey
  pub admin : Pubkey
  pub decimals : ℕ
  pub timestamp : ℤ

pub record MinterRegistered : Type 0 where
  pub config : Pubkey
  pub minter : Pubkey
  pub authority : Pubkey
  pub epoch_cap : ℕ
  pub epoch_duration : ℤ
  pub timestamp : ℤ

pub record MinterUpdated : Type 0 where
  pub config : Pubkey
  pub minter : Pubkey
  pub epoch_cap : ℕ
  pub enabled : Bool
  pub timestamp : ℤ

pub record MinterRevoked : Type 0 where
  pub config : Pubkey
  pub minter : Pubkey
  pub authority : Pubkey
  pub total_minted : ℕ
  pub timestamp : ℤ

pub record TokensMinted : Type 0 where
  pub config : Pubkey
  pub minter : Pubkey
  pub recipient : Pubkey
  pub amount : ℕ
  pub total_minted : ℕ
  pub timestamp : ℤ

pub record TokensBurned : Type 0 where
  pub config : Pubkey
  pub source : Pubkey
  pub amount : ℕ
  pub total_burned : ℕ
  pub timestamp : ℤ

pub record AdminTransferProposed : Type 0 where
  pub config : Pubkey
  pub current_admin : Pubkey
  pub pending_admin : Pubkey
  pub timestamp : ℤ

pub record AdminTransferCancelled : Type 0 where
  pub config : Pubkey
  pub admin : Pubkey
  pub cancelled_admin : Pubkey
  pub timestamp : ℤ

pub record AdminTransferAccepted : Type 0 where
  pub config : Pubkey
  pub previous_admin : Pubkey
  pub new_admin : Pubkey
  pub timestamp : ℤ

pub record PauseToggled : Type 0 where
  pub config : Pubkey
  pub paused : Bool
  pub admin : Pubkey
  pub timestamp : ℤ

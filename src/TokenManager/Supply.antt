-- ===== src/TokenManager/Supply.antt =====
-- A token configuration in operation: its account and the accounts of all its minters, and the
-- transactions that change them. A transaction is one successful instruction on the accounts as
-- they are.
pub mod Totals
pub mod Handover
use helix_protocol.Prelude.{ℕ, ◌≡◌, Bool, List, [], ◌∷◌, some}
use helix_protocol.Prelude.Lists.{get_elem?, set}
use helix_protocol.Prelude.Int.{ℤ}
use helix_protocol.Prelude.Fallible.{ok}
use helix_protocol.Anchor.{Pubkey, Runtime, Mint, TokenProgram}
use helix_protocol.TokenManager.Types.{TokenConfig, Minter}
use helix_protocol.TokenManager.Events.{
  TokenInitialized, MinterRegistered, MinterUpdated, MinterRevoked, AdminTransferProposed,
  AdminTransferCancelled, AdminTransferAccepted, PauseToggled,
}
use helix_protocol.TokenManager.Registry.{
  ConfigSigner, RegisterMinterAccounts, register_minter, MinterAccounts, update_minter,
  revoke_minter, propose_admin, cancel_admin_transfer, accept_admin, set_paused,
}
use helix_protocol.TokenManager.Issuance.{
  MintTokensAccounts, MintOutcome, mint_to, BurnTokensAccounts, BurnOutcome, burn,
}

pub record System : Type 0 where
  pub config : TokenConfig
  pub minters : List Minter

-- The system that `initialize_token` creates.
abbrev pub created : TokenConfig × Mint × TokenInitialized → System
created out = record { config = out.0; minters = [] }

-- Each constructor names the signer that the transaction needs: in `accepts` the successor, and
-- elsewhere the admin, the authority of the minter or the owner of the tokens.
pub data Step (R : Runtime) (T : TokenProgram) (s t : System) : Type 0 where
  registers :
      (a : RegisterMinterAccounts) (now : ℤ) (authority epoch_cap : ℕ) (epoch : ℤ)
      (out : TokenConfig × Minter × MinterRegistered)
      → a.admin.config ≡ s.config
      → register_minter R a now authority epoch_cap epoch ≡ ok out
      → t ≡ record s { config = out.0; minters = out.1 ∷ s.minters }
      → Step R T s t
  updates :
      (a : MinterAccounts) (i : ℕ) (now : ℤ) (epoch_cap : ℕ) (enabled : Bool)
      (out : Minter × MinterUpdated)
      → a.admin.config ≡ s.config
      → get_elem? s.minters i ≡ some a.minter
      → update_minter R a now epoch_cap enabled ≡ ok out
      → t ≡ record s { minters = set s.minters i out.0 }
      → Step R T s t
  revokes :
      (a : MinterAccounts) (i : ℕ) (now : ℤ) (out : TokenConfig × Minter × MinterRevoked)
      → a.admin.config ≡ s.config
      → get_elem? s.minters i ≡ some a.minter
      → revoke_minter R a now ≡ ok out
      → t ≡ record s { config = out.0; minters = set s.minters i out.1 }
      → Step R T s t
  mints :
      (a : MintTokensAccounts) (i : ℕ) (now : ℤ) (amount : ℕ) (out : MintOutcome)
      → a.config ≡ s.config
      → get_elem? s.minters i ≡ some a.minter
      → mint_to R T a now amount ≡ ok out
      → t ≡ record s { config = out.config; minters = set s.minters i out.minter }
      → Step R T s t
  burns :
      (a : BurnTokensAccounts) (now : ℤ) (amount : ℕ) (out : BurnOutcome)
      → a.config ≡ s.config
      → burn R T a now amount ≡ ok out
      → t ≡ record s { config = out.config }
      → Step R T s t
  proposes :
      (a : ConfigSigner) (now : ℤ) (new_admin : Pubkey) (out : TokenConfig × AdminTransferProposed)
      → a.config ≡ s.config
      → propose_admin R a now new_admin ≡ ok out
      → t ≡ record s { config = out.0 }
      → Step R T s t
  cancels :
      (a : ConfigSigner) (now : ℤ) (out : TokenConfig × AdminTransferCancelled)
      → a.config ≡ s.config
      → cancel_admin_transfer R a now ≡ ok out
      → t ≡ record s { config = out.0 }
      → Step R T s t
  accepts :
      (a : ConfigSigner) (now : ℤ) (out : TokenConfig × AdminTransferAccepted)
      → a.config ≡ s.config
      → accept_admin R a now ≡ ok out
      → t ≡ record s { config = out.0 }
      → Step R T s t
  pauses :
      (a : ConfigSigner) (now : ℤ) (paused : Bool) (out : TokenConfig × PauseToggled)
      → a.config ≡ s.config
      → set_paused R a now paused ≡ ok out
      → t ≡ record s { config = out.0 }
      → Step R T s t

pub data Reach (R : Runtime) (T : TokenProgram) (s : System) : System → Type 0 where
  here : Reach R T s s
  next : {t u : System} → Reach R T s t → Step R T t u → Reach R T s u

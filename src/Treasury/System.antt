-- ===== src/Treasury/System.antt =====
-- A treasury in operation: its account, all its vesting streams and its vault, and the transactions
-- that change them. A transaction is one successful instruction on the accounts as they are, or a
-- transfer of tokens to the vault by anyone.
pub mod Books
pub mod Commitments
pub mod Streams
pub mod Overlong
use helix_protocol.Prelude.{ℕ, ◌+◌, ◌≡◌, ◌≢◌, List, [], ◌∷◌, some}
use helix_protocol.Prelude.Lists.{get_elem?, set}
use helix_protocol.Prelude.Int.{ℤ}
use helix_protocol.Prelude.Fallible.{ok}
use helix_protocol.Anchor.{Pubkey, Runtime, TokenAccount, TokenProgram}
use helix_protocol.Treasury.Types.{Treasury, VestingStream}
use helix_protocol.Treasury.Events.{SpendCapChanged, GovernanceExecutorChanged}
use helix_protocol.Treasury.Funds.{
  InitializeTreasuryOutcome, DepositAccounts, DepositOutcome, deposit, SpendAccounts, SpendOutcome,
  spend, GovernanceOnly, set_spend_cap, set_governance_executor,
}
use helix_protocol.Treasury.Vesting.{
  CreateStreamAccounts, CreateStreamOutcome, create_stream, ClaimStreamAccounts, ClaimStreamOutcome,
  claim_stream, RevokeStreamAccounts, RevokeStreamOutcome, revoke_stream,
}

pub record System : Type 0 where
  pub treasury : Treasury
  pub streams : List VestingStream
  pub vault : TokenAccount

-- The system that `initialize_treasury` creates.
abbrev pub created : InitializeTreasuryOutcome → System
created out = record { treasury = out.treasury; streams = []; vault = out.vault }

-- In `deposits` and `claims` the signer's token account is another account than the vault: the owner
-- of the vault is a program address, which signs for no one. A spend may name any destination; to
-- the vault itself it would move nothing, and is left out.
pub data Step (R : Runtime) (T : TokenProgram) (s t : System) : Type 0 where
  deposits :
      (a : DepositAccounts) (now : ℤ) (amount : ℕ) (out : DepositOutcome)
      → a.treasury ≡ s.treasury
      → a.vault ≡ s.vault
      → a.depositor_token_account.key ≢ a.vault.key
      → deposit R T a now amount ≡ ok out
      → t ≡ record s { treasury = out.treasury; vault = out.vault }
      → Step R T s t
  spends :
      (a : SpendAccounts) (now : ℤ) (amount : ℕ) (out : SpendOutcome)
      → a.treasury ≡ s.treasury
      → a.vault ≡ s.vault
      → a.vault.key ≢ a.destination.key
      → spend R T a now amount ≡ ok out
      → t ≡ record s { treasury = out.treasury; vault = out.vault }
      → Step R T s t
  creates :
      (a : CreateStreamAccounts) (now : ℤ) (id total : ℕ) (start cliff end : ℤ)
      (out : CreateStreamOutcome)
      → a.treasury ≡ s.treasury
      → a.vault ≡ s.vault
      → create_stream R a now id total start cliff end ≡ ok out
      → t ≡ record s { treasury = out.treasury; streams = out.stream ∷ s.streams }
      → Step R T s t
  claims :
      (a : ClaimStreamAccounts) (i : ℕ) (now : ℤ) (out : ClaimStreamOutcome)
      → a.treasury ≡ s.treasury
      → a.vault ≡ s.vault
      → get_elem? s.streams i ≡ some a.stream
      → a.vault.key ≢ a.beneficiary_token_account.key
      → claim_stream R T a now ≡ ok out
      → t ≡ record s {
        treasury = out.treasury;
        streams = set s.streams i out.stream;
        vault = out.vault;
      }
      → Step R T s t
  revokes :
      (a : RevokeStreamAccounts) (i : ℕ) (now : ℤ) (out : RevokeStreamOutcome)
      → a.treasury ≡ s.treasury
      → get_elem? s.streams i ≡ some a.stream
      → revoke_stream R a now ≡ ok out
      → t ≡ record s { treasury = out.treasury; streams = set s.streams i out.stream }
      → Step R T s t
  recaps :
      (a : GovernanceOnly) (now : ℤ) (cap : ℕ) (epoch : ℤ) (out : Treasury × SpendCapChanged)
      → a.treasury ≡ s.treasury
      → set_spend_cap R a now cap epoch ≡ ok out
      → t ≡ record s { treasury = out.0 }
      → Step R T s t
  migrates :
      (a : GovernanceOnly) (now : ℤ) (new : Pubkey) (out : Treasury × GovernanceExecutorChanged)
      → a.treasury ≡ s.treasury
      → set_governance_executor R a now new ≡ ok out
      → t ≡ record s { treasury = out.0 }
      → Step R T s t
  gifts :
      (amount : ℕ)
      → t ≡ record s { vault = record (s.vault) { amount = s.vault.amount + amount } }
      → Step R T s t

pub data Reach (R : Runtime) (T : TokenProgram) (s : System) : System → Type 0 where
  here : Reach R T s s
  next : {t u : System} → Reach R T s t → Step R T t u → Reach R T s u

-- ===== src/Anchor.antt =====
-- What the programs take from the chain and from the Anchor framework, none of it in the
-- repository: the derivation of program addresses, and the token program that they call. Both are
-- parameters of the model. `TransferLaws` states what the programs rely on in `transfer_checked`
-- of SPL Token and Token-2022, a transfer fee included.
use helix_protocol.Prelude.{
  ℕ, ◌+◌, ◌≤◌, String, ◌≡◌, ◌≢◌, Bool, false, ◌&&◌, Option, none, some, List, ◌==◌,
}

-- A 32-byte address; the programs only compare them.
abbrev pub Pubkey : Type 0
Pubkey = ℕ

pub data Program : Type 0 where
  helix_token_manager helix_staking helix_governance helix_treasury : Program

pub data Seed : Type 0 where
  text : String → Seed
  key : Pubkey → Seed
  le_bytes : ℕ → Seed

-- `Pubkey::create_program_address` with the given bump, and `Pubkey::find_program_address`.
pub record Runtime : Type 0 where
  pub create_program_address : List Seed → ℕ → Program → Option Pubkey
  pub find_program_address : List Seed → Program → Pubkey × ℕ

-- The constraint `seeds = […], bump = b` on an account with address `k`.
abbrev pub derives : Runtime → List Seed → ℕ → Program → Pubkey → Bool
derives R seeds b program k = elim (R.create_program_address seeds b program) [
  | none ↦ false
  | some address ↦ address == k
]

-- The constraint `seeds = […], bump` with no bump given.
abbrev pub finds : Runtime → List Seed → Program → Pubkey → Bool
finds R seeds program k = (R.find_program_address seeds program).0 == k

-- A mint, and a token account: its address, its mint, the owner that may move its tokens, the
-- token program that holds it, and its balance.
pub record Mint : Type 0 where
  pub key : Pubkey
  pub decimals : ℕ

pub record TokenAccount : Type 0 where
  pub key : Pubkey
  pub mint : Pubkey
  pub owner : Pubkey
  pub program : Pubkey
  pub amount : ℕ

-- The constraints `token::mint` and `token::token_program`, and with them `token::authority`.
abbrev pub holds : TokenAccount → Mint → Pubkey → Bool
holds a m program = (a.mint == m.key) && (a.program == program)

abbrev pub holds_for : TokenAccount → Mint → Pubkey → Pubkey → Bool
holds_for a m authority program = holds a m program && (a.owner == authority)

-- A call of the token program takes the accounts of its `CpiContext` in their order, the signing
-- authority among them, and gives the accounts back as a `reload` sees them; `none` is a failure.
pub record TokenProgram : Type 0 where
  pub transfer_checked :
      TokenAccount → Mint → TokenAccount → Pubkey → ℕ → ℕ → Option (TokenAccount × TokenAccount)
  pub mint_to : Mint → TokenAccount → Pubkey → ℕ → Option TokenAccount
  pub burn : Mint → TokenAccount → Pubkey → ℕ → Option TokenAccount

-- An account keeps its identity; only the balance moves.
pub record SameAccount (a b : TokenAccount) : Type 0 where
  pub key : b.key ≡ a.key
  pub mint : b.mint ≡ a.mint
  pub owner : b.owner ≡ a.owner
  pub program : b.program ≡ a.program

-- A transfer between two accounts takes the amount from the sender, and gives the receiver no more
-- than that: a fee may be withheld.
pub record Transferred (amount : ℕ) (from to from' to' : TokenAccount) : Type 0 where
  pub from_same : SameAccount from from'
  pub to_same : SameAccount to to'
  pub debited : from'.amount + amount ≡ from.amount
  pub credited : to.amount ≤ to'.amount
  pub capped : to'.amount ≤ to.amount + amount

abbrev pub TransferLaws : TokenProgram → Type 0
TransferLaws T =
    (from to from' to' : TokenAccount) (m : Mint) (authority amount decimals : ℕ)
    → from.key ≢ to.key
    → T.transfer_checked from m to authority amount decimals ≡ some (from', to')
    → Transferred amount from to from' to'

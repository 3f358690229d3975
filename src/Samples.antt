-- ===== src/Samples.antt =====
-- A runtime and a token program for the tests: addresses are numbers made of the seeds, and a
-- transfer moves the whole amount, or fails when the sender has less.
use Prim.Native.String.{len}
use helix_protocol.Prelude.{
  ℕ, ◌+◌, ◌-◌, ◌*◌, some, none, Option, List, [], ◌∷◌, leb, arith, if◌then◌else◌,
}
use helix_protocol.Anchor.{Pubkey, Seed, Runtime, Mint, TokenAccount, TokenProgram, TransferLaws}

abbrev code : Seed → ℕ
code (Seed.text s) = len s
code (Seed.key k) = k
code (Seed.le_bytes n) = n

abbrev pub address : List Seed → Pubkey
address [] = 0
address (s ∷ ss) = code s + 100 * address ss

abbrev pub runtime : Runtime
runtime = record {
  create_program_address = λ seeds bump program. some (address seeds);
  find_program_address = λ seeds program. (address seeds, 255);
}

abbrev move : TokenAccount → TokenAccount → ℕ → Option (TokenAccount × TokenAccount)
move from to amount =
    if leb amount from.amount
    then some
        (record from { amount = from.amount - amount }, record to { amount = to.amount + amount })
    else none

abbrev pub token_program : TokenProgram
token_program = record {
  transfer_checked = λ from m to authority amount decimals. move from to amount;
  mint_to = λ m to authority amount. some (record to { amount = to.amount + amount });
  burn = λ m from authority amount.
      if leb amount from.amount then some (record from { amount = from.amount - amount }) else none;
}

pub token_program_laws : TransferLaws token_program
token_program_laws from to from' to' m authority amount decimals apart h = record {
  from_same = record {
    key = ground arith;
    mint = ground arith;
    owner = ground arith;
    program = ground arith;
  };
  to_same = record {
    key = ground arith;
    mint = ground arith;
    owner = ground arith;
    program = ground arith;
  };
  debited = ground arith;
  credited = ground arith;
  capped = ground arith;
}

abbrev pub hlx : Mint
hlx = record { key = 7; decimals = 6 }

abbrev pub user_account : ℕ → TokenAccount
user_account n = record { key = 50; mint = 7; owner = 40; program = 9; amount = n }

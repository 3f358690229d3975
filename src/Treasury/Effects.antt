-- ===== src/Treasury/Effects.antt =====
-- The effects of the treasury instructions that touch the commitments, where they succeed.
use helix_protocol.Prelude.{
  ℕ, ◌+◌, ◌-◌, ◌≤◌, ◌<◌, ◌≡◌, true, false, inl, inr, some, Option, arith, Option-cases,
}
use helix_protocol.Prelude.Int.{ℤ, ◌≤ℤ◌}
use helix_protocol.Prelude.Fallible.{ok, Result-cases, >>-eq-ok}
use helix_protocol.Anchor.{Runtime, TokenAccount, TokenProgram}
use helix_protocol.Treasury.Types.{Treasury, VestingStream}
use helix_protocol.Treasury.State.{
  vested_at, claimable_at, unvested_remainder, charge_epoch_budget, uncommitted, remaining_budget,
}
use helix_protocol.Treasury.State.Budget.{Charged, charge_epoch_budget-Charged}
use helix_protocol.Treasury.Funds.{
  DepositAccounts, DepositOutcome, check_deposit, deposit, SpendAccounts, SpendOutcome,
  spend_handler,
}
use helix_protocol.Treasury.Vesting.{
  CreateStreamAccounts, CreateStreamOutcome, check_create_stream, create_stream_handler,
  create_stream, ClaimStreamAccounts, ClaimStreamOutcome, claim_stream_handler,
  RevokeStreamAccounts, RevokeStreamOutcome, revoke_stream_handler,
}

pub record Deposits (T : TokenProgram) (a : DepositAccounts) (amount : ℕ) (out : DepositOutcome)
    : Type 0 where
  pub received : a.vault.amount < out.vault.amount
  pub treasury :
      out.treasury ≡ record (a.treasury) { total_deposited = out.treasury.total_deposited }

pub deposit-Deposits :
    (R : Runtime) (T : TokenProgram) (a : DepositAccounts) (now : ℤ) (amount : ℕ)
    (out : DepositOutcome)
    → deposit R T a now amount ≡ ok out
    → Deposits T a amount out
unfolding deposit
deposit-Deposits R T a now amount out h =
    let k = (>>-eq-ok (check_deposit R a) _ h).1 in
    elim (Option-cases moved) [
      | inl e ↦ ground arith
      | inr ((sender, vault), et) ↦ record { received = ground arith; treasury = ground arith }
    ]
  where
    moved : Option (TokenAccount × TokenAccount)
    moved =
        T.transfer_checked a.depositor_token_account a.mint a.vault a.depositor amount
          a.mint.decimals

-- A spend is within the free balance and within the budget.
pub record Spends (T : TokenProgram) (a : SpendAccounts) (now : ℤ) (amount : ℕ) (out : SpendOutcome)
    : Type 0 where
  pub charged : Treasury
  pub charge : Charged a.treasury amount now charged
  pub positive : 0 < amount
  pub free : amount + a.treasury.committed_to_streams ≤ a.vault.amount
  pub transfer :
      T.transfer_checked a.vault a.mint a.destination a.vault_authority amount a.mint.decimals
      ≡ some (out.vault, out.destination)
  pub treasury : out.treasury ≡ record charged { total_spent = charged.total_spent + amount }

-- A successful spend is of a positive amount within the balance that is not committed; it is
-- charged to the epoch's budget, moved from the vault, and added to the total spent.
pub spend_handler-Spends :
    (T : TokenProgram) (a : SpendAccounts) (now : ℤ) (amount : ℕ) (out : SpendOutcome)
    → spend_handler T a now amount ≡ ok out
    → Spends T a now amount out
unfolding spend_handler uncommitted
spend_handler-Spends T a now amount out h =
    elim (Result-cases (charge_epoch_budget a.treasury amount now)) [
      | inl (f, e) ↦ ground arith
      | inr (charged, ec) ↦ elim (Option-cases moved) [
        | inl e ↦ ground arith
        | inr ((vault, destination), et) ↦
            elim (Result-cases (
              remaining_budget (record charged { total_spent = charged.total_spent + amount })
                now)) [
                  | inl (f, e) ↦ ground arith
                  | inr (rest, er) ↦ record {
                    charged = charged;
                    charge = charge_epoch_budget-Charged a.treasury amount now charged ec;
                    positive = ground arith;
                    free = ground arith;
                    transfer = ground arith;
                    treasury = ground arith;
                  }
                ]
      ]
    ]
  where
    moved : Option (TokenAccount × TokenAccount)
    moved = T.transfer_checked a.vault a.mint a.destination a.vault_authority amount a.mint.decimals

pub record Created (a : CreateStreamAccounts) (id total : ℕ) (start cliff end : ℤ)
    (out : CreateStreamOutcome) : Type 0 where
  pub positive : 0 < total
  pub cliff_after : start ≤ℤ cliff
  pub end_after : cliff ≤ℤ end
  pub free : total + a.treasury.committed_to_streams ≤ a.vault.amount
  pub terms : out.stream ≡ record (out.stream) {
    total_amount = total;
    claimed = 0;
    start_ts = start;
    cliff_ts = cliff;
    end_ts = end;
    revoked = false;
  }
  pub treasury : out.treasury ≡ record (a.treasury) {
    committed_to_streams = a.treasury.committed_to_streams + total;
    stream_count = a.treasury.stream_count + 1;
  }

-- A successful `create_stream` has a positive total within the balance that is not committed and a
-- schedule in order; it opens a stream on these terms with nothing claimed, and adds the total to
-- the commitments.
pub create_stream-Created :
    (R : Runtime) (a : CreateStreamAccounts) (now : ℤ) (id total : ℕ) (start cliff end : ℤ)
    (out : CreateStreamOutcome)
    → create_stream R a now id total start cliff end ≡ ok out
    → Created a id total start cliff end out
unfolding create_stream create_stream_handler uncommitted
create_stream-Created R a now id total start cliff end out h =
    let k = (>>-eq-ok (check_create_stream R a id) _ h).1 in
    record {
      positive = ground arith;
      cliff_after = ground arith;
      end_after = ground arith;
      free = ground arith;
      terms = ground arith;
      treasury = ground arith;
    }

pub record Claims (T : TokenProgram) (a : ClaimStreamAccounts) (now : ℤ) (out : ClaimStreamOutcome)
    : Type 0 where
  pub vested : ℕ
  pub amount : ℕ
  pub at : vested_at a.stream now ≡ ok vested
  pub due : a.stream.claimed + amount ≡ vested
  pub positive : 0 < amount
  pub transfer :
      T.transfer_checked a.vault a.mint a.beneficiary_token_account a.vault_authority amount
        a.mint.decimals
      ≡ some (out.vault, out.beneficiary_token_account)
  pub stream : out.stream ≡ record (a.stream) { claimed = vested }
  pub released : out.treasury.committed_to_streams + amount ≡ a.treasury.committed_to_streams
  pub treasury :
      out.treasury
      ≡ record (a.treasury) { committed_to_streams = out.treasury.committed_to_streams }

pub claim_stream_handler-Claims :
    (T : TokenProgram) (a : ClaimStreamAccounts) (now : ℤ) (out : ClaimStreamOutcome)
    → claim_stream_handler T a now ≡ ok out
    → Claims T a now out
unfolding claim_stream_handler claimable_at
claim_stream_handler-Claims T a now out h = elim (Result-cases (vested_at a.stream now)) [
  | inl (f, e) ↦ ground arith
  | inr (vested, ev) ↦ elim (Option-cases (moved (vested - a.stream.claimed))) [
    | inl e ↦ ground arith
    | inr ((vault, receiver), et) ↦ record {
      vested = vested;
      amount = vested - a.stream.claimed;
      at = ev;
      due = ground arith;
      positive = ground arith;
      transfer = ground arith;
      stream = ground arith;
      released = ground arith;
      treasury = ground arith;
    }
  ]
]
  where
    moved : ℕ → Option (TokenAccount × TokenAccount)
    moved amount =
        T.transfer_checked a.vault a.mint a.beneficiary_token_account a.vault_authority amount
          a.mint.decimals

pub record Revokes (a : RevokeStreamAccounts) (now : ℤ) (out : RevokeStreamOutcome) : Type 0 where
  pub vested : ℕ
  pub live : a.stream.revoked ≡ false
  pub stream : out.stream ≡ record (a.stream) { revoked = true; revoked_at = now }
  pub at : vested_at out.stream now ≡ ok vested
  pub kept : a.stream.claimed ≤ vested
  pub bounded : vested ≤ a.stream.total_amount
  pub retained : out.event.vested_retained ≡ vested - a.stream.claimed
  pub released :
      out.treasury.committed_to_streams + (a.stream.total_amount - vested)
      ≡ a.treasury.committed_to_streams
  pub treasury :
      out.treasury
      ≡ record (a.treasury) { committed_to_streams = out.treasury.committed_to_streams }

pub revoke_stream_handler-Revokes :
    (a : RevokeStreamAccounts) (now : ℤ) (out : RevokeStreamOutcome)
    → revoke_stream_handler a now ≡ ok out
    → Revokes a now out
unfolding revoke_stream_handler claimable_at unvested_remainder
revoke_stream_handler-Revokes a now out h = elim (Result-cases (vested_at frozen now)) [
  | inl (f, e) ↦ ground arith
  | inr (vested, ev) ↦ record {
    vested = vested;
    live = ground arith;
    stream = ground arith;
    at = ground arith;
    kept = ground arith;
    bounded = ground arith;
    retained = ground arith;
    released = ground arith;
    treasury = ground arith;
  }
]
  where
    frozen : VestingStream
    frozen = record (a.stream) { revoked = true; revoked_at = now }

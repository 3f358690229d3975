-- ===== src/Treasury/Tests.antt =====
-- A treasury with one vesting stream, and the theorems about the treasury program at work on it.
use helix_protocol.Prelude.{ℕ, ◌≤◌, ◌≡◌, refl, false, List, [], ◌∷◌, arith}
use helix_protocol.Prelude.Int.{ℤ, pos, ◌-ℤ◌}
use helix_protocol.Prelude.Fallible.{ok}
use helix_protocol.Samples.{runtime, token_program, token_program_laws, hlx, user_account}
use helix_protocol.Treasury.Types.{Treasury}
use helix_protocol.Treasury.State.{
  epoch_at, charge_epoch_budget, remaining_budget, uncommitted, vested_between, vested_at,
  claimable_at, unvested_remainder,
}
use helix_protocol.Treasury.State.Schedule.{vested_at_mono}
use helix_protocol.Treasury.State.Budget.{paid, charge_all, charge_all-le-cap}
use helix_protocol.Treasury.Funds.{
  InitializeTreasuryAccounts, InitializeTreasuryOutcome, check_initialize_treasury,
  initialize_treasury, DepositAccounts, DepositOutcome, check_deposit, deposit, SpendAccounts,
  SpendOutcome, check_governance, spend_handler,
}
use helix_protocol.Treasury.Vesting.{
  CreateStreamAccounts, CreateStreamOutcome, check_create_stream, create_stream_handler,
  create_stream, ClaimStreamAccounts, ClaimStreamOutcome, check_claim_stream, claim_stream_handler,
  claim_stream, RevokeStreamAccounts, RevokeStreamOutcome, check_revoke_stream,
  revoke_stream_handler, revoke_stream,
}
use helix_protocol.Treasury.Effects.{Spends, spend_handler-Spends, Created, create_stream-Created}
use helix_protocol.Treasury.System.{System, created, Step, Reach, here, next}
use helix_protocol.Treasury.System.Commitments.{Backed, treasury-Backed}
use helix_protocol.Treasury.System.Streams.{revoke-keeps_vested, claim_stream_succeeds}

abbrev creation : InitializeTreasuryAccounts
creation = record {
  governance_executor = 60;
  treasury_key = 708;
  treasury_in_use = false;
  vault_authority = 70815;
  mint = hlx;
  vault = 70805;
  vault_in_use = false;
  token_program = 9;
}

created_ok :
    (out : InitializeTreasuryOutcome) × (initialize_treasury runtime creation
        (pos 100)
        500
        (pos 86_400)
      ≡ ok out)
unfolding initialize_treasury check_initialize_treasury epoch_at
created_ok = (_, refl)

abbrev s₀ : System
s₀ = created created_ok.0

abbrev depositing : DepositAccounts
depositing = record {
  treasury_key = 708;
  treasury = s₀.treasury;
  depositor = 40;
  mint = hlx;
  depositor_token_account = user_account 90_000;
  vault = s₀.vault;
  token_program = 9;
}

deposited_ok :
    (out : DepositOutcome) × (deposit runtime token_program depositing (pos 200) 50_000 ≡ ok out)
unfolding created_ok deposit check_deposit
deposited_ok = (_, refl)

abbrev s₁ : System
s₁ = record s₀ { treasury = deposited_ok.0.treasury; vault = deposited_ok.0.vault }

abbrev streaming : CreateStreamAccounts
streaming = record {
  treasury_key = 708;
  treasury = s₁.treasury;
  governance_executor = 60;
  beneficiary = 40;
  stream_key = 70806;
  stream_in_use = false;
  vault = s₁.vault;
}

streamed_ok :
    (out : CreateStreamOutcome) × (create_stream runtime streaming
        (pos 300)
        0
        10_000
        (pos 1_000)
        (pos 21_000)
        (pos 101_000)
      ≡ ok out)
unfolding created_ok deposited_ok create_stream check_create_stream check_governance
    create_stream_handler uncommitted ◌-ℤ◌
streamed_ok = (_, refl)

abbrev s₂ : System
s₂ = record s₁ { treasury = streamed_ok.0.treasury; streams = streamed_ok.0.stream ∷ [] }

abbrev claiming : ClaimStreamAccounts
claiming = record {
  treasury_key = 708;
  treasury = s₂.treasury;
  stream_key = 70806;
  stream = streamed_ok.0.stream;
  beneficiary = 40;
  mint = hlx;
  vault = s₂.vault;
  beneficiary_token_account = user_account 0;
  vault_authority = 70815;
  token_program = 9;
}

claimed_ok :
    (out : ClaimStreamOutcome) × (claim_stream runtime token_program claiming (pos 31_000) ≡ ok out)
unfolding created_ok deposited_ok streamed_ok claim_stream check_claim_stream claim_stream_handler
    vested_at vested_between claimable_at ◌-ℤ◌
claimed_ok = (_, refl)

-- Three tenths of the schedule have passed.
claimed_three_tenths : claimed_ok.0.event.amount ≡ 3_000
unfolding claimed_ok created_ok deposited_ok streamed_ok claim_stream check_claim_stream
    claim_stream_handler vested_at vested_between claimable_at ◌-ℤ◌
claimed_three_tenths = refl

abbrev s₃ : System
s₃ = record s₂ {
  treasury = claimed_ok.0.treasury;
  streams = claimed_ok.0.stream ∷ [];
  vault = claimed_ok.0.vault;
}

abbrev revoking : RevokeStreamAccounts
revoking = record {
  treasury_key = 708;
  treasury = s₃.treasury;
  governance_executor = 60;
  stream_key = 70806;
  stream = claimed_ok.0.stream;
}

revoked_ok : (out : RevokeStreamOutcome) × (revoke_stream runtime revoking (pos 51_000) ≡ ok out)
unfolding created_ok deposited_ok streamed_ok claimed_ok revoke_stream check_revoke_stream
    check_governance revoke_stream_handler vested_at vested_between claimable_at unvested_remainder
    ◌-ℤ◌
revoked_ok = (_, refl)

abbrev s₄ : System
s₄ = record s₃ { treasury = revoked_ok.0.treasury; streams = revoked_ok.0.stream ∷ [] }

abbrev spending : SpendAccounts
spending = record {
  treasury_key = 708;
  treasury = s₁.treasury;
  governance_executor = 60;
  mint = hlx;
  vault = s₁.vault;
  destination = user_account 0;
  vault_authority = 70815;
  token_program = 9;
}

spent_ok : (out : SpendOutcome) × (spend_handler token_program spending (pos 300) 400 ≡ ok out)
unfolding created_ok deposited_ok spend_handler uncommitted charge_epoch_budget epoch_at
    remaining_budget
spent_ok = (_, refl)

history₂ : Reach runtime token_program s₀ s₂
unfolding created_ok deposited_ok streamed_ok
history₂ =
    next
      (next here (
        Step.deposits depositing (pos 200) 50_000 deposited_ok.0 refl refl (λ e. omega arith)
          deposited_ok.1 refl))
      (Step.creates streaming (pos 300) 0 10_000 (pos 1_000) (pos 21_000) (pos 101_000)
        streamed_ok.0 refl refl streamed_ok.1 refl)

history₄ : Reach runtime token_program s₀ s₄
unfolding created_ok deposited_ok streamed_ok claimed_ok revoked_ok
history₄ =
    next
      (next history₂ (
        Step.claims claiming 0 (pos 31_000) claimed_ok.0 refl refl refl (λ e. omega arith)
          claimed_ok.1 refl))
      (Step.revokes revoking 0 (pos 51_000) revoked_ok.0 refl refl revoked_ok.1 refl)

treasury-Backed_example : Backed s₄
treasury-Backed_example =
    treasury-Backed runtime token_program token_program_laws creation (pos 100) 500 (pos 86_400)
      created_ok.0 s₄ created_ok.1 history₄

s₂-Backed : Backed s₂
s₂-Backed =
    treasury-Backed runtime token_program token_program_laws creation (pos 100) 500 (pos 86_400)
      created_ok.0 s₂ created_ok.1 history₂

revoked_handler_ok : revoke_stream_handler revoking (pos 51_000) ≡ ok revoked_ok.0
unfolding revoke_stream check_revoke_stream check_governance revoked_ok created_ok deposited_ok
    streamed_ok claimed_ok revoke_stream_handler vested_at vested_between claimable_at
    unvested_remainder ◌-ℤ◌
revoked_handler_ok = refl

revoke-keeps_vested_example :
    (claimable_at revoked_ok.0.stream (pos 99_000) ≡ claimable_at claimed_ok.0.stream (pos 51_000))
    × (claimable_at claimed_ok.0.stream (pos 51_000) ≡ ok revoked_ok.0.event.vested_retained)
revoke-keeps_vested_example =
    revoke-keeps_vested revoking (pos 51_000) (pos 99_000) revoked_ok.0 revoked_handler_ok
      (omega arith)

claim_stream_succeeds_example :
    (out : ClaimStreamOutcome) × (claim_stream_handler token_program claiming (pos 31_000) ≡ ok out)
    × (out.stream.claimed ≡ 3_000)
unfolding created_ok deposited_ok streamed_ok
claim_stream_succeeds_example =
    claim_stream_succeeds token_program claiming s₂.streams 0 (pos 31_000) _ _ s₂-Backed refl
      (omega arith) (omega arith) (omega arith) refl

abbrev payments : List (ℕ × ℤ)
payments = (300, pos 400) ∷ (150, pos 80_000) ∷ []

charged_ok : (t : Treasury) × (charge_all s₀.treasury payments ≡ ok t)
unfolding created_ok charge_all charge_epoch_budget epoch_at
charged_ok = (_, refl)

charge_all-le-cap_example : paid payments ≤ s₀.treasury.epoch_spend_cap
unfolding created_ok epoch_at
charge_all-le-cap_example =
    charge_all-le-cap s₀.treasury charged_ok.0 0 payments (refl, (refl, tt)) charged_ok.1

vested_at_mono_example : (3_000 ≤ 5_000) × (5_000 ≤ streamed_ok.0.stream.total_amount)
unfolding created_ok deposited_ok streamed_ok vested_at vested_between ◌-ℤ◌
vested_at_mono_example =
    vested_at_mono streamed_ok.0.stream (pos 31_000) (pos 51_000) {x = 3_000} {y = 5_000}
      (record { cliff_after = omega arith; end_after = omega arith }) (omega arith) refl refl

spend_handler-Spends_example : Spends token_program spending (pos 300) 400 spent_ok.0
spend_handler-Spends_example =
    spend_handler-Spends token_program spending (pos 300) 400 spent_ok.0 spent_ok.1

create_stream-Created_example :
    Created streaming 0 10_000 (pos 1_000) (pos 21_000) (pos 101_000) streamed_ok.0
create_stream-Created_example =
    create_stream-Created runtime streaming (pos 300) 0 10_000 (pos 1_000) (pos 21_000)
      (pos 101_000) streamed_ok.0 streamed_ok.1

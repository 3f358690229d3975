-- ===== src/Dao/Tests.antt =====
-- A treasury and a proposal to pay 400 tokens from it, and the theorems about the two at work on
-- them.
use helix_protocol.Prelude.{ℕ, ◌≤◌, ◌≡◌, refl, [], ◌∷◌, false}
use helix_protocol.Prelude.Lists.{sum_by}
use helix_protocol.Prelude.Int.{pos, ◌+ℤ◌}
use helix_protocol.Prelude.Fallible.{ok}
use helix_protocol.Samples.{runtime, token_program, hlx, user_account}
use helix_protocol.Treasury.State.{epoch_at, charge_epoch_budget, remaining_budget, uncommitted}
use helix_protocol.Treasury.Funds.{
  InitializeTreasuryAccounts, InitializeTreasuryOutcome, check_initialize_treasury,
  initialize_treasury, SpendOutcome, check_governance, check_spend, spend_handler, spend,
}
use helix_protocol.Governance.Types.{Realm, Proposal, ProposalAction, queued}
use helix_protocol.Governance.Events.{ProposalExecuted}
use helix_protocol.Governance.State.{require_state, expires_at, authorize_execution}
use helix_protocol.Governance.Proposals.{check_proposal}
use helix_protocol.Governance.Execute.{check_execute}
use helix_protocol.Governance.Execute.Treasury.{
  ExecuteTreasuryTransferAccounts, spend_accounts, treasury_transfer_of, execute_treasury_transfer,
}
use helix_protocol.Governance.Execute.Mandate.{Mandated, execute_treasury_transfer-Mandated}
use helix_protocol.Governance.Execute.Gate.{Execution, Execution-Authorized}
use helix_protocol.Dao.{Dao, founded, settled, Step, here, next}
use helix_protocol.Dao.Approved.{approved, spent_is_approved}

abbrev creation : InitializeTreasuryAccounts
creation = record {
  governance_executor = 707040508;
  treasury_key = 708;
  treasury_in_use = false;
  vault_authority = 70815;
  mint = hlx;
  vault = 70805;
  vault_in_use = false;
  token_program = 9;
}

created_ok :
    (out : InitializeTreasuryOutcome) × (initialize_treasury runtime creation
        (pos 100)
        500
        (pos 86_400)
      ≡ ok out)
unfolding initialize_treasury check_initialize_treasury epoch_at
created_ok = (_, refl)

abbrev realm₀ : Realm
realm₀ = record {
  authority = 80;
  guardian = 81;
  staking_pool = 70704;
  quorum_bps = 2_000;
  approval_bps = 6_000;
  voting_period = pos 3_600;
  timelock_delay = pos 7_200;
  min_weight_to_propose = 100;
  proposal_count = 1;
  bump = 255;
  executor_bump = 255;
}

abbrev paying : Proposal
paying = record {
  realm = 7070405;
  proposer = 40;
  id = 0;
  state = queued;
  action = ProposalAction.treasury_transfer 50 400;
  title = "Pay";
  descriptor_uri = "ipfs://pay";
  created_at = pos 100;
  voting_starts_at = pos 200;
  voting_ends_at = pos 3_800;
  eta = pos 11_200;
  for_votes = 10_000;
  against_votes = 0;
  abstain_votes = 0;
  total_weight_snapshot = 10_000;
  position_count_snapshot = 1;
  bump = 255;
}

abbrev d₀ : Dao
d₀ = founded created_ok.0 (paying ∷ [])

abbrev transferring : ExecuteTreasuryTransferAccounts
transferring = record {
  base = record {
    on = record {
      realm_key = 7070405;
      realm = realm₀;
      proposal_key = 707040508;
      proposal = paying;
    };
    executor = 707040508;
  };
  treasury_key = 708;
  treasury = d₀.treasury;
  treasury_mint = hlx;
  treasury_vault = record { key = 70805; mint = 7; owner = 70815; program = 9; amount = 1_000 };
  destination = user_account 0;
  treasury_vault_authority = 70815;
  token_program = 9;
}

transferred_ok :
    (out : Proposal × SpendOutcome × ProposalExecuted) × (execute_treasury_transfer runtime
        token_program transferring
        (pos 12_000)
      ≡ ok out)
unfolding created_ok execute_treasury_transfer check_execute check_proposal treasury_transfer_of
    authorize_execution require_state expires_at spend check_spend check_governance spend_handler
    uncommitted charge_epoch_budget epoch_at remaining_budget ◌+ℤ◌
transferred_ok = (_, refl)

abbrev d₁ : Dao
d₁ = settled d₀ 0 transferred_ok.0.0 transferred_ok.0.1.treasury

spent_is_approved_example : d₁.treasury.total_spent ≤ sum_by approved d₁.proposals
spent_is_approved_example =
    spent_is_approved runtime token_program creation (pos 100) 500 (pos 86_400) created_ok.0
      (paying ∷ []) d₁ created_ok.1
      (next here (
        Step.transfers 0 transferring (pos 12_000) transferred_ok.0 refl refl transferred_ok.1
          refl))

execute_treasury_transfer-Mandated_example :
    (amount : ℕ) × Mandated paying
      (pos 12_000)
      (ProposalAction.treasury_transfer 50 amount)
      (spend runtime token_program (spend_accounts transferring) (pos 12_000) amount)
      transferred_ok.0.0
      transferred_ok.0.1
execute_treasury_transfer-Mandated_example =
    execute_treasury_transfer-Mandated runtime token_program transferring (pos 12_000)
      transferred_ok.0 transferred_ok.1

Execution-Authorized_example : authorize_execution paying (pos 12_000) ≡ ok transferred_ok.0.0
Execution-Authorized_example =
    Execution-Authorized
      (Execution.transfers transferring transferred_ok.0 transferred_ok.1 refl refl)

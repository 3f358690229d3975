-- ===== src/Dao.antt =====
-- A treasury under governance: the treasury's account, all the proposals of the governance program,
-- and the transactions that change them. The treasury's executor is the program address of a realm,
-- so the instructions that it guards are called by programs/governance only; deposits and claims
-- are open to all. A proposal's own step takes the execution of its action elsewhere, on another
-- treasury or on another program, as the gate that it passes. A change of the treasury's executor
-- ends the history.
pub mod Approved
mod Tests
use helix_protocol.Prelude.{ℕ, ◌+◌, ◌≡◌, String, List, [], ◌∷◌, some}
use helix_protocol.Prelude.Lists.{get_elem?, set}
use helix_protocol.Prelude.Int.{ℤ}
use helix_protocol.Prelude.Fallible.{ok}
use helix_protocol.Anchor.{Runtime, TokenProgram}
use helix_protocol.Treasury.Types.{Treasury}
use helix_protocol.Treasury.Events.{SpendCapChanged}
use helix_protocol.Treasury.Funds.{
  InitializeTreasuryOutcome, DepositAccounts, DepositOutcome, deposit, SpendOutcome,
}
use helix_protocol.Treasury.Vesting.{
  CreateStreamOutcome, ClaimStreamAccounts, ClaimStreamOutcome, claim_stream, RevokeStreamOutcome,
}
use helix_protocol.Governance.Types.{Proposal, ProposalAction}
use helix_protocol.Governance.Events.{ProposalExecuted}
use helix_protocol.Governance.Proposals.{
  CreateProposalAccounts, CreateProposalOutcome, create_proposal,
}
use helix_protocol.Governance.Process
use helix_protocol.Governance.Execute.Treasury.{
  ExecuteTreasuryTransferAccounts, execute_treasury_transfer, ExecuteCreateVestingStreamAccounts,
  execute_create_vesting_stream, ExecuteRevokeVestingStreamAccounts, execute_revoke_vesting_stream,
  ExecuteTreasuryConfigAccounts, execute_set_treasury_spend_cap,
}

pub record Dao : Type 0 where
  pub treasury : Treasury
  pub proposals : List Proposal

-- The treasury that `initialize_treasury` creates, with the proposals there are.
abbrev pub founded : InitializeTreasuryOutcome → List Proposal → Dao
founded out ps = record { treasury = out.treasury; proposals = ps }

-- The proposal at `i` has been executed, and the treasury's account written.
abbrev settled : Dao → ℕ → Proposal → Treasury → Dao
settled s i q t = record { treasury = t; proposals = set s.proposals i q }

pub data Step (R : Runtime) (T : TokenProgram) (s t : Dao) : Type 0 where
  deposits :
      (a : DepositAccounts) (now : ℤ) (amount : ℕ) (out : DepositOutcome)
      → a.treasury ≡ s.treasury
      → deposit R T a now amount ≡ ok out
      → t ≡ record s { treasury = out.treasury }
      → Step R T s t
  claims :
      (a : ClaimStreamAccounts) (now : ℤ) (out : ClaimStreamOutcome)
      → a.treasury ≡ s.treasury
      → claim_stream R T a now ≡ ok out
      → t ≡ record s { treasury = out.treasury }
      → Step R T s t
  proposes :
      (a : CreateProposalAccounts) (now : ℤ) (id : ℕ) (action : ProposalAction)
      (title descriptor_uri : String) (out : CreateProposalOutcome)
      → create_proposal R a now id action title descriptor_uri ≡ ok out
      → t ≡ record s { proposals = out.proposal ∷ s.proposals }
      → Step R T s t
  proceeds :
      (i : ℕ) (before after : Process.Process)
      → get_elem? s.proposals i ≡ some before.proposal
      → Process.Step R before after
      → t ≡ record s { proposals = set s.proposals i after.proposal }
      → Step R T s t
  transfers :
      (i : ℕ) (a : ExecuteTreasuryTransferAccounts) (now : ℤ)
      (out : Proposal × SpendOutcome × ProposalExecuted)
      → get_elem? s.proposals i ≡ some a.base.on.proposal
      → a.treasury ≡ s.treasury
      → execute_treasury_transfer R T a now ≡ ok out
      → t ≡ settled s i out.0 out.1.treasury
      → Step R T s t
  creates :
      (i : ℕ) (a : ExecuteCreateVestingStreamAccounts) (now : ℤ) (id : ℕ)
      (out : Proposal × CreateStreamOutcome × ProposalExecuted)
      → get_elem? s.proposals i ≡ some a.base.on.proposal
      → a.treasury ≡ s.treasury
      → execute_create_vesting_stream R a now id ≡ ok out
      → t ≡ settled s i out.0 out.1.treasury
      → Step R T s t
  revokes :
      (i : ℕ) (a : ExecuteRevokeVestingStreamAccounts) (now : ℤ)
      (out : Proposal × RevokeStreamOutcome × ProposalExecuted)
      → get_elem? s.proposals i ≡ some a.base.on.proposal
      → a.treasury ≡ s.treasury
      → execute_revoke_vesting_stream R a now ≡ ok out
      → t ≡ settled s i out.0 out.1.treasury
      → Step R T s t
  recaps :
      (i : ℕ) (a : ExecuteTreasuryConfigAccounts) (now : ℤ)
      (out : Proposal × (Treasury × SpendCapChanged) × ProposalExecuted)
      → get_elem? s.proposals i ≡ some a.base.on.proposal
      → a.treasury ≡ s.treasury
      → execute_set_treasury_spend_cap R a now ≡ ok out
      → t ≡ settled s i out.0 out.1.0
      → Step R T s t

pub data Reach (R : Runtime) (T : TokenProgram) (s : Dao) : Dao → Type 0 where
  here : Reach R T s s
  next : {t u : Dao} → Reach R T s t → Step R T t u → Reach R T s u

-- ===== src/Governance/Process.antt =====
-- A proposal in operation: its account, its realm, the vote records and the chain's clock, and the
-- transactions that change them. A transaction is one successful instruction on the accounts as
-- they are, at a time that is not before the last one's. `proposes` is the creation of another
-- proposal in the realm, which counts it. `executes` is the gate that every
-- `execute_*` instruction passes first; `amends` and `reassigns` are the executions of other
-- proposals that change the realm, `amends_itself` and `reassigns_itself` those of this one.
pub mod Moves
pub mod Stages
pub mod Orderly
pub mod Final
use helix_protocol.Prelude.{ℕ, String, ◌≡◌, List, [], ◌∷◌}
use helix_protocol.Prelude.Int.{ℤ, ◌≤ℤ◌}
use helix_protocol.Prelude.Fallible.{ok}
use helix_protocol.Anchor.{Pubkey, Runtime}
use helix_protocol.Governance.Types.{
  Realm, RealmParams, Proposal, ProposalAction, VoteRecord, VoteChoice,
}
use helix_protocol.Governance.Events.{
  RealmParamsUpdated, RealmAuthorityChanged, ProposalExecuted, ProposalActivated, ProposalCancelled,
  ProposalFinalized, ProposalQueued,
}
use helix_protocol.Governance.State.{authorize_execution}
use helix_protocol.Governance.Realm.{UpdateRealmParamsAccounts, update_realm_params}
use helix_protocol.Governance.Proposals.{
  CreateProposalAccounts, CreateProposalOutcome, create_proposal, ProposalAccounts,
  ActivateProposalAccounts, activate_proposal, cancel_proposal,
}
use helix_protocol.Governance.Vote.{CastVoteAccounts, CastVoteOutcome, cast_vote}
use helix_protocol.Governance.Execute.{ExecuteAccounts}
use helix_protocol.Governance.Execute.Realm.{
  execute_update_realm_params, execute_set_realm_authority,
}
use helix_protocol.Governance.Lifecycle.{finalize_proposal, queue_proposal}

pub record Process : Type 0 where
  pub realm : Realm
  pub proposal : Proposal
  pub records : List VoteRecord
  pub clock : ℤ

-- The process that `create_proposal` starts.
abbrev pub started : CreateProposalOutcome → ℤ → Process
started out now = record { realm = out.realm; proposal = out.proposal; records = []; clock = now }

pub data Step (R : Runtime) (s t : Process) : Type 0 where
  reparameterizes :
      (a : UpdateRealmParamsAccounts) (now : ℤ) (p : RealmParams) (out : Realm × RealmParamsUpdated)
      → s.clock ≤ℤ now
      → a.realm ≡ s.realm
      → update_realm_params R a now p ≡ ok out
      → t ≡ record s { realm = out.0; clock = now }
      → Step R s t
  proposes :
      (a : CreateProposalAccounts) (now : ℤ) (id : ℕ) (action : ProposalAction)
      (title descriptor_uri : String) (out : CreateProposalOutcome)
      → s.clock ≤ℤ now
      → a.realm ≡ s.realm
      → create_proposal R a now id action title descriptor_uri ≡ ok out
      → t ≡ record s { realm = out.realm; clock = now }
      → Step R s t
  activates :
      (a : ActivateProposalAccounts) (now : ℤ) (out : Proposal × ProposalActivated)
      → s.clock ≤ℤ now
      → a.on.proposal ≡ s.proposal
      → activate_proposal R a now ≡ ok out
      → t ≡ record s { proposal = out.0; clock = now }
      → Step R s t
  votes :
      (a : CastVoteAccounts) (now : ℤ) (choice : VoteChoice) (out : CastVoteOutcome)
      → s.clock ≤ℤ now
      → a.on.proposal ≡ s.proposal
      → cast_vote R a now choice ≡ ok out
      → t ≡ record s { proposal = out.proposal; records = out.vote_record ∷ s.records; clock = now }
      → Step R s t
  finalizes :
      (a : ProposalAccounts) (now : ℤ) (out : Proposal × ProposalFinalized)
      → s.clock ≤ℤ now
      → a.proposal ≡ s.proposal
      → a.realm ≡ s.realm
      → finalize_proposal R a now ≡ ok out
      → t ≡ record s { proposal = out.0; clock = now }
      → Step R s t
  queues :
      (a : ProposalAccounts) (now : ℤ) (out : Proposal × ProposalQueued)
      → s.clock ≤ℤ now
      → a.proposal ≡ s.proposal
      → a.realm ≡ s.realm
      → queue_proposal R a now ≡ ok out
      → t ≡ record s { proposal = out.0; clock = now }
      → Step R s t
  cancels :
      (a : ProposalAccounts) (guardian : Pubkey) (now : ℤ) (out : Proposal × ProposalCancelled)
      → s.clock ≤ℤ now
      → a.proposal ≡ s.proposal
      → cancel_proposal R a guardian now ≡ ok out
      → t ≡ record s { proposal = out.0; clock = now }
      → Step R s t
  executes :
      (now : ℤ) (p : Proposal)
      → s.clock ≤ℤ now
      → authorize_execution s.proposal now ≡ ok p
      → t ≡ record s { proposal = p; clock = now }
      → Step R s t
  amends :
      (a : ExecuteAccounts) (now : ℤ)
      (out : Proposal × Realm × RealmParamsUpdated × ProposalExecuted)
      → s.clock ≤ℤ now
      → a.on.realm ≡ s.realm
      → execute_update_realm_params R a now ≡ ok out
      → t ≡ record s { realm = out.1; clock = now }
      → Step R s t
  amends_itself :
      (a : ExecuteAccounts) (now : ℤ)
      (out : Proposal × Realm × RealmParamsUpdated × ProposalExecuted)
      → s.clock ≤ℤ now
      → a.on.realm ≡ s.realm
      → a.on.proposal ≡ s.proposal
      → execute_update_realm_params R a now ≡ ok out
      → t ≡ record s { realm = out.1; proposal = out.0; clock = now }
      → Step R s t
  reassigns :
      (a : ExecuteAccounts) (now : ℤ)
      (out : Proposal × Realm × RealmAuthorityChanged × ProposalExecuted)
      → s.clock ≤ℤ now
      → a.on.realm ≡ s.realm
      → execute_set_realm_authority R a now ≡ ok out
      → t ≡ record s { realm = out.1; clock = now }
      → Step R s t
  reassigns_itself :
      (a : ExecuteAccounts) (now : ℤ)
      (out : Proposal × Realm × RealmAuthorityChanged × ProposalExecuted)
      → s.clock ≤ℤ now
      → a.on.realm ≡ s.realm
      → a.on.proposal ≡ s.proposal
      → execute_set_realm_authority R a now ≡ ok out
      → t ≡ record s { realm = out.1; proposal = out.0; clock = now }
      → Step R s t

pub data Reach (R : Runtime) (s : Process) : Process → Type 0 where
  here : Reach R s s
  next : {t u : Process} → Reach R s t → Step R t u → Reach R s u

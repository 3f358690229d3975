-- ===== src/Governance/Proposals.antt =====
-- programs/governance/src/instructions/proposal.rs: creation, activation and the guardian's veto.
use Prim.Native.String.{len}
use helix_protocol.Prelude.{ℕ, String, Bool, not, List, [], ◌∷◌, ◌==◌, ltb, leb, ◌&&◌}
use helix_protocol.Prelude.Int.{ℤ, pos}
use helix_protocol.Prelude.Machine.{u64_max, checked_add, checked_add_i64}
use helix_protocol.Prelude.Fallible.{
  custom, ok, ◌>>=◌, ◌>>◌, require, constraint, ok_or, constraint_seeds, constraint_has_one,
  account_in_use,
}
use helix_protocol.Anchor.{Pubkey, Seed, helix_governance, Runtime, derives, finds}
use helix_protocol.Staking.Types.{Pool, Position}
use helix_protocol.Governance.Types.{
  Realm, Proposal, ProposalAction, draft, voting, cancelled, proposal_seed, max_title_len,
  max_uri_len, not_position_owner, pool_mismatch, text_too_long, unexpected_proposal_id,
  below_proposal_threshold, math_overflow, missing_snapshot, not_guardian, invalid_proposal_state,
}
use helix_protocol.Governance.State.{Fallible, require_state, is_cancellable}
use helix_protocol.Governance.Realm.{realm_derives}
use helix_protocol.Governance.Events.{ProposalCreated, ProposalActivated, ProposalCancelled}

abbrev pub proposal_seeds : Pubkey → ℕ → List Seed
proposal_seeds realm id = proposal_seed ∷ Seed.key realm ∷ Seed.le_bytes id ∷ []

-- The accounts of `CreateProposal`.
pub record CreateProposalAccounts : Type 0 where
  pub realm_key : Pubkey
  pub realm : Realm
  pub proposer : Pubkey
  pub proposer_position : Position
  pub owner : Pubkey
  pub proposal_key : Pubkey
  pub proposal_in_use : Bool

-- The constraints of `#[derive(Accounts)] struct CreateProposal`.
unfoldable pub check_create_proposal : Runtime → CreateProposalAccounts → ℕ → Fallible (Unit {0})
check_create_proposal R a proposal_id = do
  constraint (realm_derives R a.realm a.realm_key) constraint_seeds
  constraint (a.proposer_position.owner == a.owner) (custom not_position_owner)
  constraint (a.proposer_position.pool == a.realm.staking_pool) (custom pool_mismatch)
  constraint (finds R (proposal_seeds a.realm_key proposal_id) helix_governance a.proposal_key)
      constraint_seeds
  constraint (not a.proposal_in_use) account_in_use

pub record CreateProposalOutcome : Type 0 where
  pub realm : Realm
  pub proposal : Proposal
  pub event : ProposalCreated

-- The instruction `create_proposal`. The length of a text is its number of bytes.
unfoldable pub create_proposal :
    Runtime
    → CreateProposalAccounts
    → ℤ
    → ℕ
    → ProposalAction
    → String
    → String
    → Fallible CreateProposalOutcome
unfolding check_create_proposal
create_proposal R a now proposal_id action title descriptor_uri = do
  check_create_proposal R a proposal_id
  require (leb (len title) max_title_len && leb (len descriptor_uri) max_uri_len) text_too_long
  require (a.owner == a.proposer) not_position_owner
  require (proposal_id == a.realm.proposal_count) unexpected_proposal_id
  require (leb a.realm.min_weight_to_propose a.proposer_position.weighted_amount)
      below_proposal_threshold
  count ← ok_or (checked_add u64_max a.realm.proposal_count 1) math_overflow
  ok (record {
    realm = record (a.realm) { proposal_count = count };
    proposal = record {
      realm = a.realm_key;
      proposer = a.proposer;
      id = proposal_id;
      state = draft;
      action = action;
      title = title;
      descriptor_uri = descriptor_uri;
      created_at = now;
      voting_starts_at = pos 0;
      voting_ends_at = pos 0;
      eta = pos 0;
      for_votes = 0;
      against_votes = 0;
      abstain_votes = 0;
      total_weight_snapshot = 0;
      position_count_snapshot = 0;
      bump = (R.find_program_address (proposal_seeds a.realm_key proposal_id) helix_governance).1;
    };
    event = record {
      realm = a.realm_key;
      proposal = a.proposal_key;
      proposer = a.proposer;
      id = proposal_id;
      action = action;
      title = title;
      timestamp = now;
    };
  })

-- A proposal with its realm: the accounts of `AdvanceProposal`, which the other instructions
-- present too.
pub record ProposalAccounts : Type 0 where
  pub realm_key : Pubkey
  pub realm : Realm
  pub proposal_key : Pubkey
  pub proposal : Proposal

-- The constraints of `#[derive(Accounts)] struct AdvanceProposal`.
unfoldable pub check_proposal : Runtime → ProposalAccounts → Fallible (Unit {0})
check_proposal R a = do
  constraint (realm_derives R a.realm a.realm_key) constraint_seeds
  constraint
      (derives R (proposal_seeds a.realm_key a.proposal.id) a.proposal.bump helix_governance
        a.proposal_key)
      constraint_seeds
  constraint (a.proposal.realm == a.realm_key) constraint_has_one

-- The accounts of `ActivateProposal`.
pub record ActivateProposalAccounts : Type 0 where
  pub on : ProposalAccounts
  pub staking_pool_key : Pubkey
  pub staking_pool : Pool

-- The instruction `activate_proposal`, with the constraints of its accounts.
unfoldable pub activate_proposal :
    Runtime → ActivateProposalAccounts → ℤ → Fallible (Proposal × ProposalActivated)
unfolding check_proposal require_state
activate_proposal R a now = do
  let p = a.on.proposal
  let pool = a.staking_pool
  check_proposal R a.on
  constraint (a.on.realm.staking_pool == a.staking_pool_key) constraint_has_one
  require_state p draft
  voting_ends_at ← ok_or (checked_add_i64 now a.on.realm.voting_period) math_overflow
  require (ltb 0 pool.total_weighted) missing_snapshot
  ok (
    record p {
      state = voting;
      voting_starts_at = now;
      voting_ends_at = voting_ends_at;
      total_weight_snapshot = pool.total_weighted;
      position_count_snapshot = pool.position_count;
    },
    record {
      proposal = a.on.proposal_key;
      voting_starts_at = now;
      voting_ends_at = voting_ends_at;
      total_weight_snapshot = pool.total_weighted;
      position_count_snapshot = pool.position_count;
      timestamp = now;
    },
  )

-- The instruction `cancel_proposal`, with the constraints of its accounts.
unfoldable pub cancel_proposal :
    Runtime → ProposalAccounts → Pubkey → ℤ → Fallible (Proposal × ProposalCancelled)
unfolding check_proposal
cancel_proposal R a guardian now = do
  check_proposal R a
  constraint (a.realm.guardian == guardian) (custom not_guardian)
  require (is_cancellable a.proposal.state) invalid_proposal_state
  ok (
    record (a.proposal) { state = cancelled },
    record {
      proposal = a.proposal_key;
      guardian = guardian;
      previous_state = a.proposal.state;
      timestamp = now;
    },
  )

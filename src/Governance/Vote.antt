-- ===== src/Governance/Vote.antt =====
-- programs/governance/src/instructions/vote.rs: casting the weight of a staking position.
use helix_protocol.Prelude.{Bool, not, List, [], ◌∷◌, ◌==◌, ltb}
use helix_protocol.Prelude.Int.{ℤ, ltb_ℤ, leb_ℤ}
use helix_protocol.Prelude.Fallible.{
  custom, ok, ◌>>=◌, ◌>>◌, require, constraint, constraint_seeds, account_in_use,
}
use helix_protocol.Anchor.{Pubkey, Seed, helix_governance, Runtime, finds}
use helix_protocol.Staking.Types.{Position}
use helix_protocol.Staking.State.{can_vote_until}
use helix_protocol.Governance.Types.{
  Proposal, VoteRecord, VoteChoice, voting, vote_seed, not_position_owner, pool_mismatch,
  voting_not_started, voting_ended, insufficient_lock_duration, position_not_in_snapshot,
  zero_weight,
}
use helix_protocol.Governance.State.{Fallible, require_state, tally}
use helix_protocol.Governance.Proposals.{ProposalAccounts, check_proposal}
use helix_protocol.Governance.Events.{VoteCast}

-- The accounts of `CastVote`.
pub record CastVoteAccounts : Type 0 where
  pub on : ProposalAccounts
  pub voter : Pubkey
  pub position_key : Pubkey
  pub position : Position
  pub vote_record_key : Pubkey
  pub vote_record_in_use : Bool

abbrev pub vote_seeds : CastVoteAccounts → List Seed
vote_seeds a = vote_seed ∷ Seed.key a.on.proposal_key ∷ Seed.key a.position_key ∷ []

-- The constraints of `#[derive(Accounts)] struct CastVote`.
unfoldable pub check_cast_vote : Runtime → CastVoteAccounts → Fallible (Unit {0})
unfolding check_proposal
check_cast_vote R a = do
  check_proposal R a.on
  constraint (a.position.owner == a.voter) (custom not_position_owner)
  constraint (a.position.pool == a.on.realm.staking_pool) (custom pool_mismatch)
  constraint (finds R (vote_seeds a) helix_governance a.vote_record_key) constraint_seeds
  constraint (not a.vote_record_in_use) account_in_use

pub record CastVoteOutcome : Type 0 where
  pub proposal : Proposal
  pub vote_record : VoteRecord
  pub event : VoteCast

-- `cast_vote`, once the accounts are checked.
unfoldable pub cast_vote_handler :
    Runtime → CastVoteAccounts → ℤ → VoteChoice → Fallible CastVoteOutcome
cast_vote_handler R a now choice = do
  let p = a.on.proposal
  require_state p voting
  require (leb_ℤ p.voting_starts_at now) voting_not_started
  require (ltb_ℤ now p.voting_ends_at) voting_ended
  require (can_vote_until a.position p.voting_ends_at) insufficient_lock_duration
  require (ltb a.position.position_id p.position_count_snapshot) position_not_in_snapshot
  require (ltb 0 a.position.weighted_amount) zero_weight
  p' ← tally p choice a.position.weighted_amount
  ok (record {
    proposal = p';
    vote_record = record {
      proposal = a.on.proposal_key;
      position = a.position_key;
      voter = a.voter;
      choice = choice;
      weight = a.position.weighted_amount;
      voted_at = now;
      bump = (R.find_program_address (vote_seeds a) helix_governance).1;
    };
    event = record {
      proposal = a.on.proposal_key;
      position = a.position_key;
      voter = a.voter;
      choice = choice;
      weight = a.position.weighted_amount;
      for_votes = p'.for_votes;
      against_votes = p'.against_votes;
      abstain_votes = p'.abstain_votes;
      timestamp = now;
    };
  })

-- The instruction `cast_vote`.
unfoldable pub cast_vote : Runtime → CastVoteAccounts → ℤ → VoteChoice → Fallible CastVoteOutcome
unfolding check_cast_vote cast_vote_handler
cast_vote R a now choice = check_cast_vote R a >> cast_vote_handler R a now choice

-- ===== src/Governance/Events.antt =====
-- programs/governance/src/events.rs.
use helix_protocol.Prelude.{ℕ, String, Bool}
use helix_protocol.Prelude.Int.{ℤ}
use helix_protocol.Anchor.{Pubkey}
use helix_protocol.Governance.Types.{ProposalAction, ProposalState, VoteChoice}

pub record RealmInitialized : Type 0 where
  pub realm : Pubkey
  pub authority : Pubkey
  pub guardian : Pubkey
  pub staking_pool : Pubkey
  pub quorum_bps : ℕ
  pub approval_bps : ℕ
  pub voting_period : ℤ
  pub timelock_delay : ℤ
  pub min_weight_to_propose : ℕ
  pub timestamp : ℤ

pub record ProposalCreated : Type 0 where
  pub realm : Pubkey
  pub proposal : Pubkey
  pub proposer : Pubkey
  pub id : ℕ
  pub action : ProposalAction
  pub title : String
  pub timestamp : ℤ

pub record ProposalActivated : Type 0 where
  pub proposal : Pubkey
  pub voting_starts_at : ℤ
  pub voting_ends_at : ℤ
  pub total_weight_snapshot : ℕ
  pub position_count_snapshot : ℕ
  pub timestamp : ℤ

pub record VoteCast : Type 0 where
  pub proposal : Pubkey
  pub position : Pubkey
  pub voter : Pubkey
  pub choice : VoteChoice
  pub weight : ℕ
  pub for_votes : ℕ
  pub against_votes : ℕ
  pub abstain_votes : ℕ
  pub timestamp : ℤ

pub record ProposalFinalized : Type 0 where
  pub proposal : Pubkey
  pub outcome : ProposalState
  pub for_votes : ℕ
  pub against_votes : ℕ
  pub abstain_votes : ℕ
  pub total_weight_snapshot : ℕ
  pub timestamp : ℤ

pub record ProposalQueued : Type 0 where
  pub proposal : Pubkey
  pub eta : ℤ
  pub expires_at : ℤ
  pub timestamp : ℤ

pub record ProposalExecuted : Type 0 where
  pub proposal : Pubkey
  pub action : ProposalAction
  pub timestamp : ℤ

pub record ProposalCancelled : Type 0 where
  pub proposal : Pubkey
  pub guardian : Pubkey
  pub previous_state : ProposalState
  pub timestamp : ℤ

pub record RealmParamsUpdated : Type 0 where
  pub realm : Pubkey
  pub by_proposal : Bool
  pub quorum_bps : ℕ
  pub approval_bps : ℕ
  pub voting_period : ℤ
  pub timelock_delay : ℤ
  pub min_weight_to_propose : ℕ
  pub timestamp : ℤ

pub record RealmAuthorityChanged : Type 0 where
  pub realm : Pubkey
  pub previous_authority : Pubkey
  pub new_authority : Pubkey
  pub self_governing : Bool
  pub timestamp : ℤ

-- ===== src/Governance/Lifecycle.antt =====
-- programs/governance/src/instructions/lifecycle.rs.
use helix_protocol.Prelude.Int.{ℤ, leb_ℤ}
use helix_protocol.Prelude.Machine.{checked_add_i64}
use helix_protocol.Prelude.Fallible.{ok, ◌>>=◌, ◌>>◌, require, ok_or}
use helix_protocol.Anchor.{Runtime}
use helix_protocol.Governance.Types.{
  Proposal, voting, succeeded, queued, voting_still_open, math_overflow,
}
use helix_protocol.Governance.State.{Fallible, require_state, outcome, expires_at}
use helix_protocol.Governance.Proposals.{ProposalAccounts, check_proposal}
use helix_protocol.Governance.Events.{ProposalFinalized, ProposalQueued}

-- The instruction `finalize_proposal`, with the constraints of its accounts.
unfoldable pub finalize_proposal :
    Runtime → ProposalAccounts → ℤ → Fallible (Proposal × ProposalFinalized)
unfolding check_proposal
finalize_proposal R a now = do
  check_proposal R a
  require_state a.proposal voting
  require (leb_ℤ a.proposal.voting_ends_at now) voting_still_open
  result ← outcome a.proposal a.realm.quorum_bps a.realm.approval_bps
  ok (
    record (a.proposal) { state = result },
    record {
      proposal = a.proposal_key;
      outcome = result;
      for_votes = a.proposal.for_votes;
      against_votes = a.proposal.against_votes;
      abstain_votes = a.proposal.abstain_votes;
      total_weight_snapshot = a.proposal.total_weight_snapshot;
      timestamp = now;
    },
  )

-- The instruction `queue_proposal`, with the constraints of its accounts.
unfoldable pub queue_proposal :
    Runtime → ProposalAccounts → ℤ → Fallible (Proposal × ProposalQueued)
unfolding check_proposal
queue_proposal R a now = do
  check_proposal R a
  require_state a.proposal succeeded
  eta ← ok_or (checked_add_i64 now a.realm.timelock_delay) math_overflow
  let p = record (a.proposal) { state = queued; eta = eta }
  expiry ← expires_at p
  ok (p, record { proposal = a.proposal_key; eta = eta; expires_at = expiry; timestamp = now })

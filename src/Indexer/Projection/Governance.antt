-- ===== src/Indexer/Projection/Governance.antt =====
-- The arms of `fold` in indexer/src/projection.rs for the events of programs/governance.
use helix_protocol.Prelude.{none, some, [], ◌==◌}
use helix_protocol.Anchor.{Pubkey, Runtime, helix_governance}
use helix_protocol.Governance.Types.{draft, voting, queued, executed, cancelled}
use helix_protocol.Governance.Events.{
  RealmInitialized, RealmParamsUpdated, RealmAuthorityChanged, ProposalCreated, ProposalActivated,
  VoteCast, ProposalFinalized, ProposalQueued, ProposalExecuted, ProposalCancelled,
}
use helix_protocol.Governance.Execute.{executor_seeds}
use helix_protocol.Indexer.Maps.{lookup, or_insert, insert, EventId}
use helix_protocol.Indexer.Projection.{ProposalStats, default_realm, Analytics, orphan, realm_mut}

unfoldable pub executor_of : Runtime → Pubkey → Pubkey
executor_of R realm = (R.find_program_address (executor_seeds realm) helix_governance).0

unfoldable pub fold_proposal_created : Analytics → ProposalCreated → Analytics
unfolding insert
fold_proposal_created s e =
    let created : ProposalStats = record {
      realm = e.realm;
      proposer = e.proposer;
      id = e.id;
      title = e.title;
      state = draft;
      for_votes = 0;
      against_votes = 0;
      abstain_votes = 0;
      total_weight_snapshot = 0;
      position_count_snapshot = 0;
      voters = [];
      eta = none;
    } in
    record s { proposals = insert s.proposals e.proposal created }

-- `self.proposals.get_mut(&proposal)` and the write to the row, or the orphan where it is missing.
unfoldable pub proposal_mut :
    Analytics → Pubkey → EventId → (ProposalStats → ProposalStats) → Analytics
unfolding lookup orphan insert
proposal_mut s proposal id write = elim (lookup s.proposals proposal) [
  | none ↦ orphan s id
  | some stats ↦ record s { proposals = insert s.proposals proposal (write stats) }
]

unfoldable pub fold_proposal_activated : Analytics → EventId → ProposalActivated → Analytics
unfolding proposal_mut
fold_proposal_activated s id e = proposal_mut s e.proposal id (λ p. record p {
  state = voting;
  total_weight_snapshot = e.total_weight_snapshot;
  position_count_snapshot = e.position_count_snapshot;
})

unfoldable pub fold_vote_cast : Analytics → EventId → VoteCast → Analytics
unfolding proposal_mut insert
fold_vote_cast s id e = proposal_mut s e.proposal id (λ p. record p {
  for_votes = e.for_votes;
  against_votes = e.against_votes;
  abstain_votes = e.abstain_votes;
  voters = insert p.voters e.voter tt;
})

unfoldable pub fold_proposal_finalized : Analytics → EventId → ProposalFinalized → Analytics
unfolding proposal_mut
fold_proposal_finalized s id e = proposal_mut s e.proposal id (λ p. record p {
  state = e.outcome;
  for_votes = e.for_votes;
  against_votes = e.against_votes;
  abstain_votes = e.abstain_votes;
  total_weight_snapshot = e.total_weight_snapshot;
})

unfoldable pub fold_proposal_queued : Analytics → EventId → ProposalQueued → Analytics
unfolding proposal_mut
fold_proposal_queued s id e =
    proposal_mut s e.proposal id (λ p. record p { state = queued; eta = some e.eta })

unfoldable pub fold_proposal_executed : Analytics → EventId → ProposalExecuted → Analytics
unfolding proposal_mut
fold_proposal_executed s id e = proposal_mut s e.proposal id (λ p. record p { state = executed })

unfoldable pub fold_proposal_cancelled : Analytics → EventId → ProposalCancelled → Analytics
unfolding proposal_mut
fold_proposal_cancelled s id e = proposal_mut s e.proposal id (λ p. record p { state = cancelled })

unfoldable pub fold_realm_initialized : Runtime → Analytics → RealmInitialized → Analytics
unfolding insert or_insert executor_of
fold_realm_initialized R s e =
    let self_governing = e.authority == executor_of R e.realm in
    record s {
      realms = insert s.realms e.realm (record (or_insert default_realm s.realms e.realm) {
        authority = some e.authority;
        guardian = some e.guardian;
        staking_pool = some e.staking_pool;
        quorum_bps = e.quorum_bps;
        approval_bps = e.approval_bps;
        voting_period = e.voting_period;
        timelock_delay = e.timelock_delay;
        min_weight_to_propose = e.min_weight_to_propose;
        self_governing = self_governing;
      });
    }

unfoldable pub fold_realm_params_updated : Analytics → EventId → RealmParamsUpdated → Analytics
unfolding realm_mut
fold_realm_params_updated s id e = realm_mut s e.realm id (λ r. record r {
  quorum_bps = e.quorum_bps;
  approval_bps = e.approval_bps;
  voting_period = e.voting_period;
  timelock_delay = e.timelock_delay;
  min_weight_to_propose = e.min_weight_to_propose;
})

unfoldable pub fold_realm_authority_changed :
    Analytics → EventId → RealmAuthorityChanged → Analytics
unfolding realm_mut
fold_realm_authority_changed s id e =
    realm_mut s e.realm id
      (λ r. record r { authority = some e.new_authority; self_governing = e.self_governing })

-- ===== src/Indexer/Projection/Apply.antt =====
-- `fold`, `apply`, `apply_transaction` and `replay` of indexer/src/projection.rs. Where several
-- events of a transaction are folded, they are so in their order.
use helix_protocol.Prelude.{ℕ, ◌+◌, Bool, true, false, String, List, [], ◌∷◌, if◌then◌else◌}
use helix_protocol.Anchor.{Runtime}
use helix_protocol.Indexer.Maps.{EventId, contains, insert_id}
use helix_protocol.Indexer.Event.{HelixEvent, EmittedEvent}
use helix_protocol.Indexer.Projection.{Analytics, new}
use helix_protocol.Indexer.Projection.Staking.{
  fold_pool_initialized, fold_staked, fold_unstaked, fold_position_closed, fold_rewards_claimed,
  fold_rewards_funded, fold_reward_rate_changed, fold_pool_pause_toggled,
  fold_authority_transfer_accepted,
}
use helix_protocol.Indexer.Projection.Governance.{
  fold_proposal_created, fold_proposal_activated, fold_vote_cast, fold_proposal_finalized,
  fold_proposal_queued, fold_proposal_executed, fold_proposal_cancelled, fold_realm_initialized,
  fold_realm_params_updated, fold_realm_authority_changed,
}
use helix_protocol.Indexer.Projection.Treasury.{
  fold_treasury_initialized, fold_deposited, fold_spent, fold_stream_created, fold_stream_claimed,
  fold_stream_revoked, fold_spend_cap_changed, fold_governance_executor_changed,
}

-- `Analytics::fold`. The events of the token manager change nothing.
unfoldable pub fold : Runtime → Analytics → EventId → HelixEvent → Analytics
fold R s id (HelixEvent.pool_initialized e) = fold_pool_initialized s e
fold R s id (HelixEvent.staked e) = fold_staked s id e
fold R s id (HelixEvent.unstaked e) = fold_unstaked s id e
fold R s id (HelixEvent.position_closed e) = fold_position_closed s id e
fold R s id (HelixEvent.rewards_claimed e) = fold_rewards_claimed s id e
fold R s id (HelixEvent.rewards_funded e) = fold_rewards_funded s id e
fold R s id (HelixEvent.reward_rate_changed e) = fold_reward_rate_changed s id e
fold R s id (HelixEvent.pool_pause_toggled e) = fold_pool_pause_toggled s id e
fold R s id (HelixEvent.authority_transfer_accepted e) = fold_authority_transfer_accepted s id e
fold R s id (HelixEvent.proposal_created e) = fold_proposal_created s e
fold R s id (HelixEvent.proposal_activated e) = fold_proposal_activated s id e
fold R s id (HelixEvent.vote_cast e) = fold_vote_cast s id e
fold R s id (HelixEvent.proposal_finalized e) = fold_proposal_finalized s id e
fold R s id (HelixEvent.proposal_queued e) = fold_proposal_queued s id e
fold R s id (HelixEvent.proposal_executed e) = fold_proposal_executed s id e
fold R s id (HelixEvent.proposal_cancelled e) = fold_proposal_cancelled s id e
fold R s id (HelixEvent.realm_initialized e) = fold_realm_initialized R s e
fold R s id (HelixEvent.realm_params_updated e) = fold_realm_params_updated s id e
fold R s id (HelixEvent.realm_authority_changed e) = fold_realm_authority_changed s id e
fold R s id (HelixEvent.treasury_initialized e) = fold_treasury_initialized s e
fold R s id (HelixEvent.deposited e) = fold_deposited s id e
fold R s id (HelixEvent.spent e) = fold_spent s id e
fold R s id (HelixEvent.stream_created e) = fold_stream_created s id e
fold R s id (HelixEvent.stream_claimed e) = fold_stream_claimed s id e
fold R s id (HelixEvent.stream_revoked e) = fold_stream_revoked s id e
fold R s id (HelixEvent.spend_cap_changed e) = fold_spend_cap_changed s id e
fold R s id (HelixEvent.governance_executor_changed e) = fold_governance_executor_changed s id e
fold R s id _ = s

-- `Analytics::mark_applied`.
unfoldable pub mark_applied : Analytics → EventId → Bool × Analytics
unfolding contains insert_id
mark_applied s id =
    (if contains s.applied id then false else true, record s { applied = insert_id s.applied id })

-- `Analytics::apply`.
unfoldable pub apply : Runtime → Analytics → EventId → HelixEvent → Bool × Analytics
unfolding contains insert_id fold
apply R s id event =
    if contains s.applied id
    then (false, s)
    else (true, fold R (record s { applied = insert_id s.applied id }) id event)

abbrev pub id_of_event : String → EmittedEvent → EventId
id_of_event signature emitted = record { signature = signature; log_index = emitted.log_index }

-- `Analytics::apply_transaction`: the number of events that were new, and the state.
unfoldable pub apply_transaction : Runtime → Analytics → String → List EmittedEvent → ℕ × Analytics
unfolding apply
apply_transaction R s signature [] = (0, s)
apply_transaction R s signature (x ∷ xs) =
    let (fresh, s) = apply R s (id_of_event signature x) x.event in
    let (count, s) = apply_transaction R s signature xs in ((if fresh then 1 else 0) + count, s)

-- `Analytics::replay`, from a given state on.
unfoldable pub replay_from : Runtime → Analytics → List (String × List EmittedEvent) → Analytics
unfolding apply_transaction
replay_from R s [] = s
replay_from R s ((signature, events) ∷ ts) =
    replay_from R (apply_transaction R s signature events).1 ts

-- `Analytics::replay`.
unfoldable pub replay : Runtime → List (String × List EmittedEvent) → Analytics
unfolding replay_from
replay R ts = replay_from R new ts

-- ===== src/Indexer/Projection/Redelivery.antt =====
-- What a redelivered transaction does: `apply_transaction` and `replay` of
-- indexer/src/projection.rs.
use helix_protocol.Prelude.{ℕ, ◌≡◌, refl, ap, true, false, String, List, [], ◌∷◌, ◌++◌, arith}
use helix_protocol.Prelude.Lists.{All}
use helix_protocol.Anchor.{Runtime}
use helix_protocol.Indexer.Maps.{EventId, contains, insert_id, contains-insert_id, insert_id-keeps}
use helix_protocol.Indexer.Event.{HelixEvent, EmittedEvent}
use helix_protocol.Indexer.Projection.{Analytics, new, orphan, pool_mut, treasury_mut, realm_mut}
use helix_protocol.Indexer.Projection.Staking.{
  fold_pool_initialized, fold_staked, fold_unstaked, fold_position_closed, fold_rewards_claimed,
  fold_rewards_funded, fold_reward_rate_changed, fold_pool_pause_toggled,
  fold_authority_transfer_accepted,
}
use helix_protocol.Indexer.Projection.Governance.{
  fold_proposal_created, proposal_mut, fold_proposal_activated, fold_vote_cast,
  fold_proposal_finalized, fold_proposal_queued, fold_proposal_executed, fold_proposal_cancelled,
  fold_realm_initialized, fold_realm_params_updated, fold_realm_authority_changed,
}
use helix_protocol.Indexer.Projection.Treasury.{
  fold_treasury_initialized, fold_deposited, fold_spent, fold_stream_created, fold_stream_claimed,
  fold_stream_revoked, fold_spend_cap_changed, fold_governance_executor_changed,
}
use helix_protocol.Indexer.Projection.Apply.{
  fold, apply, id_of_event, apply_transaction, replay_from, replay,
}

-- No arm of the fold touches what has been applied.
fold-applied :
    (R : Runtime) (s : Analytics) (id : EventId) (e : HelixEvent)
    → (fold R s id e).applied ≡ s.applied
unfolding fold orphan pool_mut treasury_mut realm_mut fold_pool_initialized fold_staked
    fold_unstaked fold_position_closed fold_rewards_claimed fold_rewards_funded
    fold_reward_rate_changed fold_pool_pause_toggled fold_authority_transfer_accepted
    fold_proposal_created proposal_mut fold_proposal_activated fold_vote_cast
    fold_proposal_finalized fold_proposal_queued fold_proposal_executed fold_proposal_cancelled
    fold_realm_initialized fold_realm_params_updated fold_realm_authority_changed
    fold_treasury_initialized fold_deposited fold_spent fold_stream_created fold_stream_claimed
    fold_stream_revoked fold_spend_cap_changed fold_governance_executor_changed
fold-applied R s id (HelixEvent.pool_initialized e) = refl
fold-applied R s id (HelixEvent.staked e) = refl
fold-applied R s id (HelixEvent.unstaked e) = ground arith
fold-applied R s id (HelixEvent.position_closed e) = ground arith
fold-applied R s id (HelixEvent.rewards_claimed e) = ground arith
fold-applied R s id (HelixEvent.rewards_funded e) = refl
fold-applied R s id (HelixEvent.reward_rate_changed e) = refl
fold-applied R s id (HelixEvent.pool_pause_toggled e) = refl
fold-applied R s id (HelixEvent.authority_transfer_accepted e) = refl
fold-applied R s id (HelixEvent.proposal_created e) = refl
fold-applied R s id (HelixEvent.proposal_activated e) = ground arith
fold-applied R s id (HelixEvent.vote_cast e) = ground arith
fold-applied R s id (HelixEvent.proposal_finalized e) = ground arith
fold-applied R s id (HelixEvent.proposal_queued e) = ground arith
fold-applied R s id (HelixEvent.proposal_executed e) = ground arith
fold-applied R s id (HelixEvent.proposal_cancelled e) = ground arith
fold-applied R s id (HelixEvent.realm_initialized e) = refl
fold-applied R s id (HelixEvent.realm_params_updated e) = refl
fold-applied R s id (HelixEvent.realm_authority_changed e) = refl
fold-applied R s id (HelixEvent.treasury_initialized e) = refl
fold-applied R s id (HelixEvent.deposited e) = refl
fold-applied R s id (HelixEvent.spent e) = refl
fold-applied R s id (HelixEvent.stream_created e) = refl
fold-applied R s id (HelixEvent.stream_claimed e) = ground arith
fold-applied R s id (HelixEvent.stream_revoked e) = ground arith
fold-applied R s id (HelixEvent.spend_cap_changed e) = refl
fold-applied R s id (HelixEvent.governance_executor_changed e) = refl
fold-applied R s id _ = refl

abbrev Transaction : Type 0
Transaction = String × List EmittedEvent

-- All the events of a transaction have been applied.
abbrev Known : Analytics → String → List EmittedEvent → Type 0
Known s signature xs = All (λ x. contains s.applied (id_of_event signature x) ≡ true) xs

module _ (R : Runtime) where
  pub apply-known :
      (s : Analytics) (id : EventId) (e : HelixEvent)
      → contains s.applied id ≡ true
      → apply R s id e ≡ (false, s)
  unfolding apply
  apply-known s id e h = ground (arith, h)

  apply-applied :
      (s : Analytics) (id : EventId) (e : HelixEvent)
      → (apply R s id e).1.applied ≡ insert_id s.applied id
  unfolding apply insert_id
  apply-applied s id e = ground (arith, fold-applied R (record s { applied = id ∷ s.applied }) id e)

  apply-marks :
      (s : Analytics) (id : EventId) (e : HelixEvent)
      → contains (apply R s id e).1.applied id ≡ true
  apply-marks s id e = rw (apply-applied s id e) (contains-insert_id s.applied id)

  apply-keeps :
      (s : Analytics) (id j : EventId) (e : HelixEvent)
      → contains s.applied j ≡ true
      → contains (apply R s id e).1.applied j ≡ true
  apply-keeps s id j e k = rw (apply-applied s id e) (insert_id-keeps s.applied id j k)

  apply_transaction-keeps :
      (s : Analytics) (signature : String) (xs : List EmittedEvent) (j : EventId)
      → contains s.applied j ≡ true
      → contains (apply_transaction R s signature xs).1.applied j ≡ true
  unfolding apply_transaction
  apply_transaction-keeps s signature [] j k = k
  apply_transaction-keeps s signature (x ∷ xs) j k =
      apply_transaction-keeps (apply R s (id_of_event signature x) x.event).1 signature xs j
        (apply-keeps s (id_of_event signature x) j x.event k)

  apply_transaction-marks :
      (s : Analytics) (signature : String) (xs : List EmittedEvent)
      → Known (apply_transaction R s signature xs).1 signature xs
  unfolding apply_transaction
  apply_transaction-marks s signature [] = tt
  apply_transaction-marks s signature (x ∷ xs) =
      let id = id_of_event signature x in
      let s' = (apply R s id x.event).1 in
      (
        apply_transaction-keeps s' signature xs id (apply-marks s id x.event),
        apply_transaction-marks s' signature xs,
      )

  Known-apply_transaction :
      (s : Analytics) (signature : String) (xs : List EmittedEvent) (other : Transaction)
      → Known s signature xs
      → Known (apply_transaction R s other.0 other.1).1 signature xs
  Known-apply_transaction s signature [] other k = tt
  Known-apply_transaction s signature (x ∷ xs) other (k, ks) = (
    apply_transaction-keeps s other.0 other.1 (id_of_event signature x) k,
    Known-apply_transaction s signature xs other ks,
  )

  apply_transaction_noop :
      (s : Analytics) (signature : String) (xs : List EmittedEvent)
      → Known s signature xs
      → apply_transaction R s signature xs ≡ (0, s)
  unfolding apply_transaction
  apply_transaction_noop s signature [] k = refl
  apply_transaction_noop s signature (x ∷ xs) (k, ks) =
      rw (apply-known s (id_of_event signature x) x.event k)
        (rw (apply_transaction_noop s signature xs ks) refl)

  replay_from_noop :
      (s : Analytics) (t : Transaction) (us vs : List Transaction)
      → Known s t.0 t.1
      → replay_from R s (us ++ t ∷ vs) ≡ replay_from R s (us ++ vs)
  unfolding replay_from
  replay_from_noop s t [] vs k =
      ap (λ (u : ℕ × Analytics). replay_from R u.1 vs) (apply_transaction_noop s t.0 t.1 k)
  replay_from_noop s t (u ∷ us) vs k =
      replay_from_noop (apply_transaction R s u.0 u.1).1 t us vs
        (Known-apply_transaction s t.0 t.1 u k)

  replay_from-redelivered :
      (s : Analytics) (ts : List Transaction) (t : Transaction) (us vs : List Transaction)
      → replay_from R s (ts ++ t ∷ (us ++ t ∷ vs)) ≡ replay_from R s (ts ++ t ∷ (us ++ vs))
  unfolding replay_from
  replay_from-redelivered s [] t us vs =
      replay_from_noop (apply_transaction R s t.0 t.1).1 t us vs (apply_transaction-marks s t.0 t.1)
  replay_from-redelivered s (w ∷ ts) t us vs =
      replay_from-redelivered (apply_transaction R s w.0 w.1).1 ts t us vs

  -- A stream of transactions in which one is delivered again, anywhere after its first delivery,
  -- replays to the same projection as the stream without the second delivery.
  pub replay-redelivered :
      (ts : List Transaction) (t : Transaction) (us vs : List Transaction)
      → replay R (ts ++ t ∷ (us ++ t ∷ vs)) ≡ replay R (ts ++ t ∷ (us ++ vs))
  unfolding replay
  replay-redelivered ts t us vs = replay_from-redelivered new ts t us vs

-- Applying the events of a transaction again, right after they were applied, finds no new event
-- and changes nothing.
pub apply_transaction_twice :
    (R : Runtime) (s : Analytics) (signature : String) (xs : List EmittedEvent)
    → apply_transaction R (apply_transaction R s signature xs).1 signature xs
      ≡ (0, (apply_transaction R s signature xs).1)
apply_transaction_twice R s signature xs =
    apply_transaction_noop R (apply_transaction R s signature xs).1 signature xs
      (apply_transaction-marks R s signature xs)

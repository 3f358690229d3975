-- ===== src/Indexer/Ingest/Loops.antt =====
-- What the loops of indexer/src/ingest.rs leave of the ingestor.
use mathlib.Core.List.{append_assoc, append-nil}
use helix_protocol.Prelude.{◌≡◌, refl, sym, ◌∙◌, String, List, [], ◌∷◌, ◌++◌, map}
use helix_protocol.Anchor.{Runtime}
use helix_protocol.Indexer.Event.{EmittedEvent}
use helix_protocol.Indexer.Logs.{Codec, parse}
use helix_protocol.Indexer.Projection.Apply.{replay_from}
use helix_protocol.Indexer.Ingest.{
  TransactionLogs, SettledTransaction, PollOutcome, Ingestor, pending_of, apply, apply_each,
  push_replay, extend_each, settle, settle_each,
}

-- A transaction as the projection takes it.
abbrev pub entry : Codec → TransactionLogs → String × List EmittedEvent
entry C tx = (tx.signature, (parse C tx.logs).events)

abbrev pub settled_of : Codec → TransactionLogs → SettledTransaction
settled_of C tx = record {
  signature = tx.signature;
  slot = tx.slot;
  events = (parse C tx.logs).events;
  anomalies = (parse C tx.logs).anomalies;
}

module _ (R : Runtime) (C : Codec) where
  abbrev pub applied_to : Ingestor → List TransactionLogs → Ingestor
  applied_to s txs = record s {
    head = replay_from R s.head (map (entry C) txs);
    pending = s.pending ++ map pending_of txs;
  }

  pub apply_each-applied :
      (s : Ingestor × PollOutcome) (txs : List TransactionLogs)
      → ((apply_each R C s txs).0 ≡ applied_to s.0 txs)
        × ((apply_each R C s txs).1.settled ≡ s.1.settled)
  unfolding apply_each replay_from
  apply_each-applied s [] = (rw (append-nil s.0.pending) refl, refl)
  apply_each-applied s (tx ∷ txs) =
      let (state, settled) = apply_each-applied (apply R C s tx) txs in
      (
        state ∙ rw (append_assoc s.0.pending (pending_of tx ∷ []) (map pending_of txs)) refl,
        settled,
      )

  pub extend_each-applied :
      (s : Ingestor × PollOutcome) (txs : List TransactionLogs)
      → ((extend_each R C s txs).0 ≡ record (applied_to s.0 txs) { replay = s.0.replay ++ txs })
        × ((extend_each R C s txs).1.settled ≡ s.1.settled)
  unfolding extend_each replay_from
  extend_each-applied s [] = (rw (append-nil s.0.pending, append-nil s.0.replay) refl, refl)
  extend_each-applied s (tx ∷ txs) =
      let (state, settled) = extend_each-applied (push_replay R C (apply R C s tx) tx) txs in
      (
        state
            ∙ rw
                (
                  append_assoc s.0.pending (pending_of tx ∷ []) (map pending_of txs),
                  append_assoc s.0.replay (tx ∷ []) txs,
                )
                refl,
        settled,
      )

  pub settle_each-settled :
      (s : Ingestor × PollOutcome) (txs : List TransactionLogs)
      → ((settle_each R C s txs).0 ≡ record (s.0) {
        finalized = replay_from R s.0.finalized (map (entry C) txs);
        cursor = (settle_each R C s txs).0.cursor;
      })
        × ((settle_each R C s txs).1.settled ≡ s.1.settled ++ map (settled_of C) txs)
  unfolding settle_each replay_from
  settle_each-settled s [] = (refl, sym (append-nil s.1.settled))
  settle_each-settled s (tx ∷ txs) =
      let (state, settled) = settle_each-settled (settle R C s tx) txs in
      (state, settled ∙ append_assoc s.1.settled (settled_of C tx ∷ []) (map (settled_of C) txs))

-- ===== src/Indexer/Ingest.antt =====
-- indexer/src/ingest.rs, and the types of indexer/src/source.rs: the live poll. The source of the logs
-- is a parameter: what it answers at the time of a poll.
pub mod Loops
pub mod Reorgs
mod Tests
use Prim.Native.String.{String}
use text.Mathlib.Text as Text
use helix_protocol.Prelude.{
  ℕ, suc, ◌+◌, ◌-◌, Bool, true, false, ◌&&◌, Option, none, some, List, [], ◌∷◌, ◌++◌, map, ◌⊎◌, inl,
  inr, ◌==◌, ltb, leb, if◌then◌else◌,
}
use helix_protocol.Prelude.Lists.{length}
use helix_protocol.Anchor.{Runtime}
use helix_protocol.Indexer.Event.{EmittedEvent}
use helix_protocol.Indexer.Text.{Text}
use helix_protocol.Indexer.Logs.{Anomaly, Codec, parse}
use helix_protocol.Indexer.Projection.{Analytics, new}
use helix_protocol.Indexer.Projection.Apply.{apply_transaction}

pub record TransactionLogs : Type 0 where
  pub signature : String
  pub slot : ℕ
  pub logs : List Text

pub record Cursor : Type 0 where
  pub slot : ℕ
  pub signature : Option String

-- `LogSource`, with the answers that it gives now.
pub record LogSource (E : Type 0) : Type 0 where
  pub fetch : Cursor → ℕ → E ⊎ List TransactionLogs
  pub finalized_slot : E ⊎ ℕ

pub record Pending : Type 0 where
  pub signature : String
  pub slot : ℕ

pub record SettledTransaction : Type 0 where
  pub signature : String
  pub slot : ℕ
  pub events : List EmittedEvent
  pub anomalies : List Anomaly

pub record ReportedAnomaly : Type 0 where
  pub signature : String
  pub anomaly : Anomaly

pub record PollOutcome : Type 0 where
  pub applied : ℕ
  pub reverted : Option ℕ
  pub settled : List SettledTransaction
  pub anomalies : List ReportedAnomaly

pub data IngestError (E : Type 0) : Type 0 where
  source : E → IngestError E
  finalized_history_changed : (slot : ℕ) (signature : String) → IngestError E

pub record Ingestor : Type 0 where
  pub finalized : Analytics
  pub head : Analytics
  pub pending : List Pending
  pub cursor : Cursor
  pub replay : List TransactionLogs

-- `Ingestor::restore`.
abbrev pub restore : Cursor → Analytics → Ingestor
restore cursor finalized = record {
  finalized = finalized;
  head = finalized;
  pending = [];
  cursor = cursor;
  replay = [];
}

-- `Ingestor::new`.
abbrev pub start : Ingestor
start = restore (record { slot = 0; signature = none }) new

-- `PollOutcome::default`.
abbrev pub no_outcome : PollOutcome
no_outcome = record { applied = 0; reverted = none; settled = []; anomalies = [] }

abbrev pub pending_of : TransactionLogs → Pending
pending_of tx = record { signature = tx.signature; slot = tx.slot }

module _ (R : Runtime) (C : Codec) where
  -- `Ingestor::apply`.
  unfoldable pub apply : Ingestor × PollOutcome → TransactionLogs → Ingestor × PollOutcome
  apply (s, outcome) tx =
      let parsed = parse C tx.logs in
      let (fresh, head) = apply_transaction R s.head tx.signature parsed.events in
      (
        record s { head = head; pending = s.pending ++ pending_of tx ∷ [] },
        record outcome {
          applied = if ltb 0 fresh then outcome.applied + 1 else outcome.applied;
          anomalies =
              outcome.anomalies
              ++ map (λ x. record { signature = tx.signature; anomaly = x }) parsed.anomalies;
        },
      )

  -- The loop over what is left of the buffer.
  unfoldable pub apply_each : Ingestor × PollOutcome → List TransactionLogs → Ingestor × PollOutcome
  unfolding apply
  apply_each s [] = s
  apply_each s (tx ∷ txs) = apply_each (apply s tx) txs

  unfoldable pub push_replay : Ingestor × PollOutcome → TransactionLogs → Ingestor × PollOutcome
  push_replay (s, outcome) tx = (record s { replay = s.replay ++ tx ∷ [] }, outcome)

  -- The loop over what is new in the batch.
  unfoldable pub extend_each :
      Ingestor × PollOutcome → List TransactionLogs → Ingestor × PollOutcome
  unfolding apply push_replay
  extend_each s [] = s
  extend_each s (tx ∷ txs) = extend_each (push_replay (apply s tx) tx) txs

  -- The body of the loop of `advance_finality`.
  unfoldable pub settle : Ingestor × PollOutcome → TransactionLogs → Ingestor × PollOutcome
  settle (s, outcome) tx =
      let parsed = parse C tx.logs in
      (
        record s {
          finalized = (apply_transaction R s.finalized tx.signature parsed.events).1;
          cursor = record { slot = tx.slot; signature = some tx.signature };
        },
        record outcome {
          settled =
              outcome.settled
              ++ (record {
                signature = tx.signature;
                slot = tx.slot;
                events = parsed.events;
                anomalies = parsed.anomalies;
              })
                ∷ [];
        },
      )

  unfoldable pub settle_each :
      Ingestor × PollOutcome → List TransactionLogs → Ingestor × PollOutcome
  unfolding settle
  settle_each s [] = s
  settle_each s (tx ∷ txs) = settle_each (settle s tx) txs

module _ {A : Type 0} where
  -- `truncate`, `skip` and `drain(..n)`.
  abbrev pub take : List A → ℕ → List A
  take [] n = []
  take (x ∷ xs) ℕ.zero = []
  take (x ∷ xs) (suc n) = x ∷ take xs n

  abbrev pub drop : List A → ℕ → List A
  drop [] n = []
  drop (x ∷ xs) ℕ.zero = x ∷ xs
  drop (x ∷ xs) (suc n) = drop xs n

-- `had.signature == now.signature && had.slot == now.slot`.
unfoldable pub same_transaction : TransactionLogs → TransactionLogs → Bool
same_transaction had now = Text.◌==◌ had.signature now.signature && had.slot == now.slot

-- How many of the buffered transactions the source still reports, from the first on.
unfoldable pub agreement : List TransactionLogs → List TransactionLogs → ℕ
unfolding same_transaction
agreement [] now = 0
agreement (x ∷ had) [] = 0
agreement (x ∷ had) (y ∷ now) =
    let rest = agreement had now in if same_transaction x y then suc rest else 0

-- How many of the transactions, from the first on, are final.
unfoldable pub settling : ℕ → List TransactionLogs → ℕ
settling finalized_slot [] = 0
settling finalized_slot (tx ∷ txs) =
    let rest = settling finalized_slot txs in if leb tx.slot finalized_slot then suc rest else 0

-- The first transaction of a batch below the cursor.
unfoldable pub contradiction : Cursor → List TransactionLogs → Option TransactionLogs
contradiction cursor [] = none
contradiction cursor (tx ∷ txs) =
    let rest = contradiction cursor txs in if ltb tx.slot cursor.slot then some tx else rest

-- `Ingestor::rebuild_head_from_finalized`.
unfoldable pub rebuild_head_from_finalized : Ingestor → Ingestor
rebuild_head_from_finalized s = record s { head = s.finalized; pending = [] }

module _ (R : Runtime) (C : Codec) where
  -- `Ingestor::advance_finality`.
  unfoldable pub advance_finality : ℕ → Ingestor × PollOutcome → Ingestor × PollOutcome
  unfolding settling settle_each
  advance_finality finalized_slot (s, outcome) =
      let n = settling finalized_slot s.replay in
      let (t, outcome') =
        settle_each R C (record s { replay = drop s.replay n }, outcome) (take s.replay n) in
      if n == 0 then (s, outcome) else (record t { pending = drop t.pending n }, outcome')

  -- The branch of `poll` on a source that has dropped some of the buffer: `n` of it is left.
  unfoldable pub revert_to : ℕ → Ingestor → Ingestor × PollOutcome
  unfolding rebuild_head_from_finalized apply_each
  revert_to n s =
      let kept = take s.replay n in
      apply_each R C
        (
          record (rebuild_head_from_finalized s) { replay = kept },
          record no_outcome { reverted = some (length s.replay - n) },
        )
        kept

  -- `Ingestor::poll`, once the source has answered.
  unfoldable pub absorb : ℕ → List TransactionLogs → Ingestor → Ingestor × PollOutcome
  unfolding agreement revert_to extend_each advance_finality
  absorb finalized_slot batch s =
      let n = agreement s.replay batch in
      let reverted = revert_to n s in
      let agreed = if ltb n (length s.replay) then reverted else (s, no_outcome) in
      advance_finality finalized_slot (extend_each R C agreed (drop batch n))

  -- `Ingestor::poll`. Where it fails, the ingestor is as it was.
  unfoldable pub poll :
      {E : Type 0} → Ingestor → LogSource E → ℕ → IngestError E ⊎ (Ingestor × PollOutcome)
  unfolding contradiction absorb
  poll s from limit = elim from.finalized_slot [
    | inl e ↦ inl (IngestError.source e)
    | inr finalized_slot ↦ elim (from.fetch s.cursor limit) [
      | inl e ↦ inl (IngestError.source e)
      | inr batch ↦ elim (contradiction s.cursor batch) [
        | some tx ↦ inl (IngestError.finalized_history_changed tx.slot tx.signature)
        | none ↦ inr (absorb finalized_slot batch s)
      ]
    ]
  ]

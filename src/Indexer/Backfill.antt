-- ===== src/Indexer/Backfill.antt =====
-- The descent to the beginning of history: `Backfill` of indexer/src/ingest.rs, and its types in
-- indexer/src/source.rs. What the source answers is a parameter.
pub mod Order
mod Tests
use Prim.Native.String.{String}
use helix_protocol.Prelude.{
  ℕ, ◌+◌, Bool, true, false, Option, none, some, List, [], ◌∷◌, ◌⊎◌, inl, inr, ltb, if◌then◌else◌,
}
use helix_protocol.Indexer.Logs.{Codec, parse}
use helix_protocol.Indexer.Ingest.{TransactionLogs, SettledTransaction, IngestError}

pub record Descent : Type 0 where
  pub slot : Option ℕ
  pub signature : Option String
  pub complete : Bool

pub record PageBound : Type 0 where
  pub slot : ℕ
  pub signature : String

pub record PageRange : Type 0 where
  pub oldest : PageBound
  pub newest : PageBound

pub record DescentPage : Type 0 where
  pub transactions : List TransactionLogs
  pub covered : Option PageRange

-- `DescendingSource`, with the answers that it gives now.
pub record DescendingSource (E : Type 0) : Type 0 where
  pub fetch_before : Descent → ℕ → E ⊎ DescentPage
  pub finalized_slot : E ⊎ ℕ

pub record BackfillBatch : Type 0 where
  pub transactions : List SettledTransaction
  pub skipped_unfinalized : ℕ
  pub complete : Bool

-- `Backfill::new`: a backfill is its descent.
abbrev pub at_tip : Descent
at_tip = record { slot = none; signature = none; complete = false }

abbrev pub finished : BackfillBatch
finished = record { transactions = []; skipped_unfinalized = 0; complete = true }

-- The loop over the transactions of a page.
unfoldable pub collect : Codec → ℕ → List TransactionLogs → BackfillBatch
collect C finalized_slot [] = record {
  transactions = [];
  skipped_unfinalized = 0;
  complete = false;
}
collect C finalized_slot (tx ∷ txs) =
    let rest = collect C finalized_slot txs in
    let parsed = parse C tx.logs in
    if ltb finalized_slot tx.slot
    then record rest { skipped_unfinalized = rest.skipped_unfinalized + 1 }
    else record rest {
      transactions =
          (record {
            signature = tx.signature;
            slot = tx.slot;
            events = parsed.events;
            anomalies = parsed.anomalies;
          })
          ∷ rest.transactions;
    }

-- Whether a page reaches above the bound of the descent.
unfoldable pub above : Option ℕ → ℕ → Bool
above none slot = false
above (some bound) slot = ltb bound slot

-- `Backfill::step` on a page that the source has answered with.
unfoldable pub advance :
    {E : Type 0} → Codec → Descent → ℕ → DescentPage → IngestError E ⊎ (Descent × BackfillBatch)
unfolding collect above
advance C d finalized_slot page = elim page.covered [
  | none ↦ inr (record d { complete = true }, finished)
  | some covered ↦
      if above d.slot covered.newest.slot
      then inl (IngestError.finalized_history_changed covered.newest.slot covered.newest.signature)
      else inr (
        record d { slot = some covered.oldest.slot; signature = some covered.oldest.signature },
        collect C finalized_slot page.transactions,
      )
]

-- `Backfill::step`. Where it fails, the descent is as it was.
unfoldable pub step :
    {E : Type 0}
    → Codec
    → Descent
    → DescendingSource E
    → ℕ
    → IngestError E ⊎ (Descent × BackfillBatch)
unfolding advance
step C d from limit = if d.complete then inr (d, finished) else elim from.finalized_slot [
  | inl e ↦ inl (IngestError.source e)
  | inr finalized_slot ↦ elim (from.fetch_before d limit) [
    | inl e ↦ inl (IngestError.source e)
    | inr page ↦ advance C d finalized_slot page
  ]
]

-- ===== src/Indexer/Backfill/Tests.antt =====
-- A descent of two pages.
use helix_protocol.Prelude.{
  ℕ, ◌≡◌, refl, Option, none, some, [], ◌∷◌, ◌++◌, inr, ◌⊎◌, subst, arith, String,
}
use helix_protocol.Anchor.{Pubkey, Program}
use helix_protocol.Indexer.Event.{HelixEvent}
use helix_protocol.Indexer.Text.{Text}
use helix_protocol.Indexer.Logs.{Codec}
use helix_protocol.Indexer.Ingest.{TransactionLogs}
use helix_protocol.Indexer.Backfill.{
  Descent, PageBound, DescentPage, DescendingSource, BackfillBatch, at_tip, above, advance, step,
}
use helix_protocol.Indexer.Backfill.Order.{
  Rising, slots, KeepsOrder, begins, steps, Descends-Rising,
}

abbrev no_key : Text → Option Pubkey
no_key x = none

abbrev no_event : Program → Text → Option HelixEvent
no_event p x = none

abbrev codec : Codec
codec = record {
  ids = record { token_manager = 77; staking = 83; governance = 71; treasury = 84 };
  parse_key = no_key;
  decode = no_event;
}

abbrev tx : String → ℕ → TransactionLogs
tx signature slot = record { signature = signature; slot = slot; logs = [] }

abbrev bound : String → ℕ → PageBound
bound signature slot = record { slot = slot; signature = signature }

-- The first page has a transaction that is not final.
abbrev newer : DescentPage
newer = record {
  transactions = tx "c" 8 ∷ tx "d" 9 ∷ tx "e" 12 ∷ [];
  covered = some (record { oldest = bound "c" 8; newest = bound "e" 12 });
}

abbrev older : DescentPage
older = record {
  transactions = tx "a" 3 ∷ tx "b" 8 ∷ [];
  covered = some (record { oldest = bound "a" 3; newest = bound "b" 8 });
}

abbrev answers : DescentPage → DescendingSource (Unit {0})
answers page = record { fetch_before = λ d limit. inr page; finalized_slot = inr 10 }

newer-KeepsOrder : KeepsOrder newer
newer-KeepsOrder = record {
  rising = ((omega arith, (omega arith, tt)), ((omega arith, tt), (tt, tt)));
  within = λ r e. (
    (ground arith, (ground arith, (ground arith, tt))),
    (ground arith, (ground arith, (ground arith, tt))),
  );
  span = λ r e. ground arith;
}

older-KeepsOrder : KeepsOrder older
older-KeepsOrder = record {
  rising = ((omega arith, tt), (tt, tt));
  within = λ r e. ((ground arith, (ground arith, tt)), (ground arith, (ground arith, tt)));
  span = λ r e. ground arith;
}

first_ok : (t : Descent × BackfillBatch) × (step codec at_tip (answers newer) 3 ≡ inr t)
unfolding step advance above
first_ok = (_, refl)

second_ok : (t : Descent × BackfillBatch) × (step codec first_ok.0.0 (answers older) 3 ≡ inr t)
unfolding first_ok step advance above
second_ok = (_, refl)

Descends-Rising_example :
    Rising (slots (second_ok.0.1.transactions ++ (first_ok.0.1.transactions ++ [])))
Descends-Rising_example =
    Descends-Rising codec (Unit {0}) second_ok.0.0
      (second_ok.0.1.transactions ++ (first_ok.0.1.transactions ++ []))
      (steps (answers older) 3 second_ok.0
        (steps (answers newer) 3 first_ok.0 begins
          (λ p e. subst KeepsOrder (page_of e) newer-KeepsOrder) first_ok.1)
        (λ p e. subst KeepsOrder (page_of e) older-KeepsOrder) second_ok.1)
  where
    page_of : {p q : DescentPage} → ◌≡◌ {A = Unit {0} ⊎ DescentPage} (inr p) (inr q) → p ≡ q
    page_of e = ground arith

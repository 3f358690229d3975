-- ===== src/Indexer/Ingest/Tests.antt =====
-- Two polls of a source that takes back what it reported first.
use helix_protocol.Prelude.{ℕ, ◌≡◌, refl, Option, none, some, List, [], ◌∷◌, ◌++◌, map, inr, String}
use helix_protocol.Prelude.Int.{pos}
use helix_protocol.Samples.{runtime}
use helix_protocol.Anchor.{Pubkey, Program}
use helix_protocol.Indexer.Event.{HelixEvent}
use helix_protocol.Indexer.Text.{Text, codes}
use helix_protocol.Indexer.Logs.{Codec}
use helix_protocol.Indexer.Ingest.{
  TransactionLogs, LogSource, PollOutcome, Ingestor, start, apply, apply_each, push_replay,
  extend_each, settle, settle_each, same_transaction, agreement, settling, contradiction,
  rebuild_head_from_finalized, advance_finality, revert_to, absorb, poll,
}
use helix_protocol.Indexer.Ingest.Reorgs.{begins, polls, Replays, Run-Replays}

abbrev first_letter : Text → Option Pubkey
first_letter [] = none
first_letter (c ∷ _) = some c

abbrev funded : Program → Text → Option HelixEvent
funded p x = some (
    HelixEvent.rewards_funded (record {
      pool = 70704;
      funder = 40;
      amount_credited = 5;
      total_funded = 5;
      timestamp = pos 5;
    }))

abbrev codec : Codec
codec = record {
  ids = record { token_manager = 77; staking = 83; governance = 71; treasury = 84 };
  parse_key = first_letter;
  decode = funded;
}

abbrev logged : String → ℕ → TransactionLogs
logged signature slot = record {
  signature = signature;
  slot = slot;
  logs = map codes ("Program S invoke [1]" ∷ "Program data: AAAA" ∷ "Program S success" ∷ []);
}

-- A source that answers with the given transactions.
abbrev answers : ℕ → List TransactionLogs → LogSource (Unit {0})
answers slot txs = record { fetch = λ after limit. inr txs; finalized_slot = inr slot }

abbrev before : LogSource (Unit {0})
before = answers 10 (logged "a" 10 ∷ logged "b" 11 ∷ [])

abbrev rolled_back : LogSource (Unit {0})
rolled_back = answers 10 (logged "c" 12 ∷ [])

first_ok : (t : Ingestor × PollOutcome) × (poll runtime codec start before 100 ≡ inr t)
unfolding poll contradiction
first_ok = (_, refl)

second_ok : (t : Ingestor × PollOutcome) × (poll runtime codec first_ok.0.0 rolled_back 100 ≡ inr t)
unfolding first_ok poll contradiction absorb advance_finality settling settle_each settle
    extend_each push_replay apply agreement
second_ok = (_, refl)

reverted_one : second_ok.0.1.reverted ≡ some 1
unfolding first_ok second_ok poll contradiction absorb advance_finality settling settle_each settle
    extend_each push_replay apply agreement revert_to rebuild_head_from_finalized apply_each
    same_transaction
reverted_one = refl

Run-Replays_example :
    Replays runtime codec second_ok.0.0 ([] ++ first_ok.0.1.settled ++ second_ok.0.1.settled)
Run-Replays_example =
    Run-Replays runtime codec {E = Unit {0}} second_ok.0.0
      ([] ++ first_ok.0.1.settled ++ second_ok.0.1.settled)
      (polls rolled_back 100 second_ok.0 (polls before 100 first_ok.0 begins first_ok.1)
        second_ok.1)

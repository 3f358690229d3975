-- ===== src/Indexer/Logs/Tests.antt =====
-- The log of an `execute_treasury_transfer`: governance calls the treasury, which calls the token
-- program; and a message of a program.
use helix_protocol.Prelude.{◌≡◌, refl, true, Option, none, some, List, [], ◌∷◌, map, String}
use helix_protocol.Prelude.Int.{pos}
use helix_protocol.Anchor.{Pubkey, Program, helix_governance, helix_treasury}
use helix_protocol.Governance.Types.{ProposalAction}
use helix_protocol.Indexer.Event.{from_id, HelixEvent}
use helix_protocol.Indexer.Text.{
  Text, codes, strip_prefix, starts_with, contains_text, split_once, ends_with, is_whitespace, trim,
}
use helix_protocol.Indexer.Logs.{
  Codec, Line, ParsedLogs, scan, invoked_key, is_exit, classify, parse,
}
use helix_protocol.Indexer.Logs.Trace.{Trace, lines, events_of, anomalies_of, parse-lines}
use helix_protocol.Indexer.Logs.Messages.{message, message_closes}

-- A key of one letter.
abbrev key_of : Text → Option Pubkey
key_of [] = none
key_of (c ∷ []) = some c
key_of (_ ∷ _ ∷ _) = none

abbrev event_by : Program → Text → Option HelixEvent
event_by helix_treasury x = some (
    HelixEvent.spent (record {
      treasury = 708;
      destination = 50;
      amount = 400;
      remaining_epoch_budget = 100;
      total_spent = 400;
      timestamp = pos 5;
    }))
event_by helix_governance x = some (
    HelixEvent.proposal_executed (record {
      proposal = 707040508;
      action = ProposalAction.treasury_transfer 50 400;
      timestamp = pos 5;
    }))
event_by _ x = none

abbrev codec : Codec
codec = record {
  ids = record { token_manager = 77; staking = 83; governance = 71; treasury = 84 };
  parse_key = key_of;
  decode = event_by;
}

abbrev logs : List String
logs =
    "Program G invoke [1]" ∷ "Program log: Instruction: ExecuteTreasuryTransfer"
    ∷ "Program T invoke [2]" ∷ "Program X invoke [3]" ∷ "Program X success"
    ∷ "Program data: c3BlbnQ=" ∷ "Program T consumed 5 of 10 compute units" ∷ "Program T success"
    ∷ "Program data: ZG9uZQ==" ∷ "Program G success" ∷ []

abbrev trace : Trace
trace =
    Trace.calls (some helix_governance)
      (Trace.says (
        Trace.calls (some helix_treasury)
          (Trace.calls none Trace.done (Trace.emits (codes "c3BlbnQ=") (Trace.says Trace.done)))
          (Trace.emits (codes "ZG9uZQ==") Trace.done)))
      Trace.done

logged : map (classify codec) (map codes logs) ≡ lines trace
unfolding classify trim is_whitespace strip_prefix starts_with invoked_key split_once from_id
    is_exit ends_with contains_text
logged = refl

parse-lines_example :
    parse codec (map codes logs)
    ≡ record { events = events_of codec [] 0 trace; anomalies = anomalies_of codec [] 0 trace }
parse-lines_example = parse-lines codec (map codes logs) trace logged

abbrev complaint : Text
complaint = codes "price check failed, retrying"

trimmed : trim (message complaint) ≡ message complaint
unfolding trim is_whitespace
trimmed = refl

no_key : invoked_key codec (message complaint) ≡ none
unfolding invoked_key strip_prefix split_once
no_key = refl

failed : contains_text (codes " failed") complaint ≡ true
unfolding contains_text starts_with strip_prefix
failed = refl

abbrev nothing : ParsedLogs
nothing = record { events = []; anomalies = [] }

-- The treasury, called by governance, complains, and then emits.
message_closes_example :
    (scan codec 2
        (some helix_treasury ∷ some helix_governance ∷ [])
        nothing
        (map (classify codec) (message complaint ∷ codes "Program data: c3BlbnQ=" ∷ []))
      ≡ scan codec 3
          (some helix_governance ∷ [])
          nothing
          (map (classify codec) (codes "Program data: c3BlbnQ=" ∷ [])))
    × (scan codec 2 (some helix_treasury ∷ []) nothing (
          classify codec (message complaint)
          ∷ Line.data_of (codes "c3BlbnQ=")
          ∷ map (classify codec) (codes "Program data: c3BlbnQ=" ∷ []))
        ≡ scan codec 4 [] nothing (map (classify codec) (codes "Program data: c3BlbnQ=" ∷ [])))
message_closes_example =
    message_closes codec complaint 2 (some helix_treasury) (some helix_governance ∷ []) nothing
      (codes "c3BlbnQ=") (codes "Program data: c3BlbnQ=" ∷ []) trimmed no_key failed

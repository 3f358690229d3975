-- ===== src/Indexer/Logs.antt =====
-- indexer/src/logs.rs: the log lines of a transaction, and the events in them. What base64, Borsh and
-- base58 make of a text is a parameter.
pub mod Trace
pub mod Messages
mod Tests
use helix_protocol.Prelude.{
  ℕ, suc, ◌+◌, Bool, true, false, not, ◌&&◌, ◌||◌, Option, none, some, List, [], ◌∷◌, ◌++◌, map,
  if◌then◌else◌,
}
use helix_protocol.Prelude.Lists.{length}
use helix_protocol.Anchor.{Pubkey, Program}
use helix_protocol.Indexer.Event.{ProgramIds, from_id, HelixEvent, EmittedEvent}
use helix_protocol.Indexer.Text.{
  Text, codes, strip_prefix, starts_with, contains_text, split_once, ends_with, trim,
}

pub data Anomaly : Type 0 where
  truncated : (log_index : ℕ) → Anomaly
  undecodable_data : (log_index : ℕ) (program : Program) → Anomaly
  unbalanced_invoke_stack : (log_index : ℕ) → Anomaly

pub record ParsedLogs : Type 0 where
  pub events : List EmittedEvent
  pub anomalies : List Anomaly

-- `ParsedLogs::is_complete`.
unfoldable pub is_complete : ParsedLogs → Bool
is_complete p = elim (p.anomalies) [ [] ↦ true | ◌∷◌ _ _ ↦ false ]

-- The ids of the four programs, `Pubkey::from_str`, and base64 decoding followed by
-- `HelixEvent::decode`.
pub record Codec : Type 0 where
  pub ids : ProgramIds
  pub parse_key : Text → Option Pubkey
  pub decode : Program → Text → Option HelixEvent

-- What a line is to the parser.
pub data Line : Type 0 where
  cut : Line
  data_of : Text → Line
  invoke : Option Program → Line
  exit : Line
  noise : Line

-- The key of `Program <id> invoke [n]`.
unfoldable pub invoked_key : Codec → Text → Option Pubkey
unfolding strip_prefix split_once
invoked_key C line = elim (strip_prefix (codes "Program ") line) [
  | none ↦ none
  | some rest ↦ elim (split_once (codes " invoke [") rest) [
    | none ↦ none
    | some (id, _) ↦ C.parse_key id
  ]
]

-- `Program <id> success` and `Program <id> failed: ...`.
unfoldable pub is_exit : Text → Bool
unfolding starts_with ends_with contains_text
is_exit line =
    starts_with (codes "Program ") line
    && (ends_with (codes " success") line || contains_text (codes " failed") line)

-- The branches of the loop on the tests of a line: whether the log is cut, the payload, the key
-- that is invoked, and whether the line ends an invocation.
unfoldable pub branch : Codec → Bool → Option Text → Option Pubkey → Bool → Line
unfolding from_id
branch C true payload key ends = Line.cut
branch C false (some payload) key ends = Line.data_of payload
branch C false none (some id) ends = Line.invoke (from_id C.ids id)
branch C false none none ends = if ends then Line.exit else Line.noise

-- The tests of a trimmed line.
unfoldable pub classify_line : Codec → Text → Line
unfolding branch
classify_line C line =
    branch C (starts_with (codes "Log truncated") line) (strip_prefix (codes "Program data: ") line)
      (invoked_key C line) (is_exit line)

unfoldable pub classify : Codec → Text → Line
unfolding classify_line
classify C raw = classify_line C (trim raw)

unfoldable pub push_event : ParsedLogs → EmittedEvent → ParsedLogs
push_event p e = record p { events = p.events ++ e ∷ [] }

unfoldable pub push_anomaly : ParsedLogs → Anomaly → ParsedLogs
push_anomaly p x = record p { anomalies = p.anomalies ++ x ∷ [] }

-- A `Program data:` line, under the invocations that are open, the innermost first.
unfoldable pub read_data : Codec → ℕ → List (Option Program) → Text → ParsedLogs → ParsedLogs
unfolding trim push_event push_anomaly
read_data C i (some p ∷ stack) payload parsed = elim (C.decode p (trim payload)) [
  | some e ↦
      push_event parsed
        (record { event = e; program = p; log_index = i; depth = suc (length stack) })
  | none ↦ push_anomaly parsed (Anomaly.undecodable_data i p)
]
read_data C i (none ∷ stack) payload parsed = parsed
read_data C i [] payload parsed = parsed

-- The loop of `parse` from line `i` on: the invocations left open, and what was found.
unfoldable pub scan :
    Codec → ℕ → List (Option Program) → ParsedLogs → List Line → List (Option Program) × ParsedLogs
unfolding read_data push_anomaly
scan C i stack parsed [] = (stack, parsed)
scan C i stack parsed (Line.cut ∷ lines) = (stack, push_anomaly parsed (Anomaly.truncated i))
scan C i stack parsed (Line.data_of payload ∷ lines) =
    scan C (suc i) stack (read_data C i stack payload parsed) lines
scan C i stack parsed (Line.invoke p ∷ lines) = scan C (suc i) (p ∷ stack) parsed lines
scan C i [] parsed (Line.exit ∷ lines) =
    scan C (suc i) [] (push_anomaly parsed (Anomaly.unbalanced_invoke_stack i)) lines
scan C i (_ ∷ below) parsed (Line.exit ∷ lines) = scan C (suc i) below parsed lines
scan C i stack parsed (Line.noise ∷ lines) = scan C (suc i) stack parsed lines

abbrev is_truncated : Anomaly → Bool
is_truncated (Anomaly.truncated _) = true
is_truncated _ = false

abbrev any_truncated : List Anomaly → Bool
any_truncated [] = false
any_truncated (x ∷ xs) = let rest = any_truncated xs in is_truncated x || rest

-- The check after the loop, of `n` lines.
unfoldable pub close : ℕ → List (Option Program) × ParsedLogs → ParsedLogs
unfolding push_anomaly
close n ([], parsed) = parsed
close n (◌∷◌ _ _, parsed) =
    if any_truncated parsed.anomalies
    then parsed
    else push_anomaly parsed (Anomaly.unbalanced_invoke_stack n)

-- `parse`.
unfoldable pub parse : Codec → List Text → ParsedLogs
unfolding classify scan close
parse C logs =
    close (length logs)
      (scan C 0 [] (record { events = []; anomalies = [] }) (map (classify C) logs))

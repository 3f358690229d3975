-- ===== src/Indexer/Logs/Messages.antt =====
-- A program's own messages, which the runtime logs as `Program log: ...`, before the line tests of
-- indexer/src/logs.rs.
use helix_protocol.Prelude.{
  ℕ, suc, ◌≡◌, refl, ap, ◌∙◌, true, false, Option, none, List, [], ◌∷◌, ◌++◌, map, arith,
}
use helix_protocol.Anchor.{Program}
use helix_protocol.Indexer.Text.{Text, codes, strip_prefix, starts_with, contains_text, trim}
use helix_protocol.Indexer.Logs.{
  Codec, Line, ParsedLogs, read_data, scan, invoked_key, is_exit, classify_line, classify,
}

-- The line of a message.
abbrev pub message : Text → Text
message m = codes "Program log: " ++ m

message-is_exit : (m : Text) → contains_text (codes " failed") m ≡ true → is_exit (message m) ≡ true
unfolding is_exit starts_with strip_prefix contains_text
message-is_exit m h = ground (arith, h)

message-not_cut : (m : Text) → starts_with (codes "Log truncated") (message m) ≡ false
unfolding starts_with strip_prefix
message-not_cut m = refl

message-no_data : (m : Text) → strip_prefix (codes "Program data: ") (message m) ≡ none
unfolding strip_prefix
message-no_data m = refl

classify-message :
    (C : Codec) (m : Text)
    → trim (message m) ≡ message m
    → invoked_key C (message m) ≡ none
    → contains_text (codes " failed") m ≡ true
    → classify C (message m) ≡ Line.exit
unfolding classify
classify-message C m trimmed no_key failed =
    let tests : classify_line C (message m) ≡ Line.exit =
      rw (message-not_cut m, message-no_data m, no_key, message-is_exit m failed) refl in
    ap (classify_line C) trimmed ∙ tests

-- Let a program's own message contain ` failed`, and name no invocation, and let trimming not
-- change the line that the runtime logs for it. At that line the parser closes the innermost
-- invocation that is open, and goes on with the ones around it; if that was the only one, the
-- event on a data line that follows is passed over.
pub message_closes :
    (C : Codec) (m : Text) (i : ℕ) (frame : Option Program) (below : List (Option Program))
    (parsed : ParsedLogs) (payload : Text) (logs : List Text)
    → trim (message m) ≡ message m
    → invoked_key C (message m) ≡ none
    → contains_text (codes " failed") m ≡ true
    → (scan C i (frame ∷ below) parsed (map (classify C) (message m ∷ logs))
        ≡ scan C (suc i) below parsed (map (classify C) logs))
      × (scan C i
            (frame ∷ [])
            parsed
            (classify C (message m) ∷ Line.data_of payload ∷ map (classify C) logs)
          ≡ scan C (suc (suc i)) [] parsed (map (classify C) logs))
unfolding scan read_data
message_closes C m i frame below parsed payload logs trimmed no_key failed =
    let e = classify-message C m trimmed no_key failed in (rw e refl, rw e refl)

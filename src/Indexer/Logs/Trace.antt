-- ===== src/Indexer/Logs/Trace.antt =====
-- The lines that a transaction logs, as the tree of its invocations, and what `parse` of
-- indexer/src/logs.rs finds in them.
use mathlib.Core.List.{append_assoc, append-nil}
use helix_protocol.Prelude.{
  ℕ, suc, ◌+◌, ◌≡◌, refl, sym, ap, ◌∙◌, Option, none, some, List, [], ◌∷◌, ◌++◌, map, arith,
}
use helix_protocol.Prelude.Lists.{length}
use helix_protocol.Anchor.{Program}
use helix_protocol.Indexer.Event.{EmittedEvent}
use helix_protocol.Indexer.Text.{Text, trim}
use helix_protocol.Indexer.Logs.{
  Anomaly, ParsedLogs, Codec, Line, classify, push_event, push_anomaly, read_data, scan, close,
  parse,
}

-- What is logged under one invocation, in order: other lines, events, and further invocations, each
-- with its own lines, of one of the four programs or of another.
pub data Trace : Type 0 where
  done : Trace
  says : Trace → Trace
  emits : Text → Trace → Trace
  calls : Option Program → Trace → Trace → Trace

abbrev pub lines : Trace → List Line
lines Trace.done = []
lines (Trace.says t) = Line.noise ∷ lines t
lines (Trace.emits x t) = Line.data_of x ∷ lines t
lines (Trace.calls p b t) = Line.invoke p ∷ (lines b ++ Line.exit ∷ lines t)

abbrev pub size : Trace → ℕ
size Trace.done = 0
size (Trace.says t) = suc (size t)
size (Trace.emits x t) = suc (size t)
size (Trace.calls p b t) = suc (suc (size b + size t))

-- What is in a list of findings at one place: nothing where the innermost program is none of ours.
abbrev found_event : Codec → List (Option Program) → ℕ → Text → List EmittedEvent
found_event C (some p ∷ around) i x = elim (C.decode p (trim x)) [
  | some e ↦ (record { event = e; program = p; log_index = i; depth = suc (length around) }) ∷ []
  | none ↦ []
]
found_event C (none ∷ around) i x = []
found_event C [] i x = []

abbrev found_anomaly : Codec → List (Option Program) → ℕ → Text → List Anomaly
found_anomaly C (some p ∷ around) i x = elim (C.decode p (trim x)) [
  | some e ↦ []
  | none ↦ Anomaly.undecodable_data i p ∷ []
]
found_anomaly C (none ∷ around) i x = []
found_anomaly C [] i x = []

-- The events of a trace that begins at line `i`, under the invocations `around` it.
abbrev pub events_of : Codec → List (Option Program) → ℕ → Trace → List EmittedEvent
events_of C around i Trace.done = []
events_of C around i (Trace.says t) = events_of C around (suc i) t
events_of C around i (Trace.emits x t) = found_event C around i x ++ events_of C around (suc i) t
events_of C around i (Trace.calls p b t) =
    events_of C (p ∷ around) (suc i) b ++ events_of C around (suc (suc (i + size b))) t

-- The events that do not decode.
abbrev pub anomalies_of : Codec → List (Option Program) → ℕ → Trace → List Anomaly
anomalies_of C around i Trace.done = []
anomalies_of C around i (Trace.says t) = anomalies_of C around (suc i) t
anomalies_of C around i (Trace.emits x t) =
    found_anomaly C around i x ++ anomalies_of C around (suc i) t
anomalies_of C around i (Trace.calls p b t) =
    anomalies_of C (p ∷ around) (suc i) b ++ anomalies_of C around (suc (suc (i + size b))) t

abbrev with_more : ParsedLogs → List EmittedEvent → List Anomaly → ParsedLogs
with_more p es xs = record { events = p.events ++ es; anomalies = p.anomalies ++ xs }

read_data-eq :
    (C : Codec) (i : ℕ) (around : List (Option Program)) (x : Text) (parsed : ParsedLogs)
    → read_data C i around x parsed
      ≡ with_more parsed (found_event C around i x) (found_anomaly C around i x)
unfolding read_data push_event push_anomaly
read_data-eq C i [] x parsed = rw (append-nil parsed.events, append-nil parsed.anomalies) refl
read_data-eq C i (none ∷ around) x parsed =
    rw (append-nil parsed.events, append-nil parsed.anomalies) refl
read_data-eq C i (some p ∷ around) x parsed =
    ground (arith, append-nil parsed.events, append-nil parsed.anomalies)

with_more_assoc :
    (p : ParsedLogs) (es es' : List EmittedEvent) (xs xs' : List Anomaly)
    → with_more (with_more p es xs) es' xs' ≡ with_more p (es ++ es') (xs ++ xs')
with_more_assoc p es es' xs xs' =
    rw (append_assoc p.events es es', append_assoc p.anomalies xs xs') refl

module _ (C : Codec) where
  -- The parser after the lines of a trace.
  abbrev after :
      ℕ
      → List (Option Program)
      → ParsedLogs
      → Trace
      → List Line
      → List (Option Program) × ParsedLogs
  after i around parsed t rest =
      scan C (i + size t) around
        (with_more parsed (events_of C around i t) (anomalies_of C around i t)) rest

  scan-lines :
      (t : Trace) (i : ℕ) (around : List (Option Program)) (parsed : ParsedLogs) (rest : List Line)
      → scan C i around parsed (lines t ++ rest) ≡ after i around parsed t rest
  unfolding scan
  scan-lines Trace.done i around parsed rest =
      let here : i + 0 ≡ i = omega arith in
      rw (append-nil parsed.events, append-nil parsed.anomalies, here) refl
  scan-lines (Trace.says t) i around parsed rest =
      let next : i + suc (size t) ≡ suc i + size t = omega arith in
      rw next (scan-lines t (suc i) around parsed rest)
  scan-lines (Trace.emits x t) i around parsed rest =
      let next : i + suc (size t) ≡ suc i + size t = omega arith in
      let more = with_more parsed (found_event C around i x) (found_anomaly C around i x) in
      ap (λ u. scan C (suc i) around u (lines t ++ rest)) (read_data-eq C i around x parsed)
      ∙ scan-lines t (suc i) around more rest
      ∙ rw
          (
            with_more_assoc parsed (found_event C around i x) (events_of C around (suc i) t)
                (found_anomaly C around i x) (anomalies_of C around (suc i) t),
            next,
          )
          refl
  scan-lines (Trace.calls p b t) i around parsed rest =
      let next : i + suc (suc (size b + size t)) ≡ suc (suc (i + size b)) + size t = omega arith in
      let back : suc (suc i + size b) ≡ suc (suc (i + size b)) = omega arith in
      let inner =
        with_more parsed (events_of C (p ∷ around) (suc i) b)
          (anomalies_of C (p ∷ around) (suc i) b) in
      ap (λ u. scan C (suc i) (p ∷ around) parsed u)
        (append_assoc (lines b) (Line.exit ∷ lines t) rest)
      ∙ scan-lines b (suc i) (p ∷ around) parsed (Line.exit ∷ (lines t ++ rest))
      ∙ ap (λ k. scan C k around inner (lines t ++ rest)) back
      ∙ scan-lines t (suc (suc (i + size b))) around inner rest
      ∙ rw
          (
            with_more_assoc parsed (events_of C (p ∷ around) (suc i) b)
                (events_of C around (suc (suc (i + size b))) t)
                (anomalies_of C (p ∷ around) (suc i) b)
                (anomalies_of C around (suc (suc (i + size b))) t),
            next,
          )
          refl

  -- If the lines of a log are those of a tree of invocations, well nested and not cut, then the
  -- parser finds the events of the tree in order, each with the program of its innermost
  -- invocation, its line and its depth; what does not decode it reports, and nothing else.
  pub parse-lines :
      (logs : List Text) (t : Trace)
      → map (classify C) logs ≡ lines t
      → parse C logs ≡ record { events = events_of C [] 0 t; anomalies = anomalies_of C [] 0 t }
  unfolding parse scan close
  parse-lines logs t h =
      ap (λ u. close (length logs) (scan C 0 [] (record { events = []; anomalies = [] }) u))
        (h ∙ sym (append-nil (lines t)))
      ∙ ap (close (length logs)) (scan-lines t 0 [] (record { events = []; anomalies = [] }) [])

-- ===== src/Indexer/Ingest/Reorgs.antt =====
-- The ingestor of indexer/src/ingest.rs over any sequence of polls, rollbacks among them.
use helix_protocol.Prelude.{
  ℕ, suc, ◌≡◌, refl, sym, ap, ◌∙◌, subst, String, List, [], ◌∷◌, ◌++◌, map, inl, inr, arith, ◌==◌,
  ltb, Bool-cases, Option-cases, Sum-cases,
}
use helix_protocol.Prelude.Lists.{length}
use helix_protocol.Anchor.{Runtime}
use helix_protocol.Indexer.Event.{EmittedEvent}
use helix_protocol.Indexer.Logs.{Codec}
use helix_protocol.Indexer.Projection.{Analytics, new}
use helix_protocol.Indexer.Projection.Apply.{replay_from, replay}
use helix_protocol.Indexer.Ingest.{
  TransactionLogs, LogSource, SettledTransaction, PollOutcome, Ingestor, start, no_outcome,
  pending_of, take, drop, settling, agreement, advance_finality, revert_to, extend_each,
  settle_each, absorb, contradiction, poll,
}
use helix_protocol.Indexer.Ingest.Loops.{
  entry, settled_of, apply_each-applied, extend_each-applied, settle_each-settled,
}

-- A settled transaction as the projection takes it.
abbrev pub row : SettledTransaction → String × List EmittedEvent
row tx = (tx.signature, tx.events)

module _ {A B : Type 0} (f : A → B) where
  map-append : (xs ys : List A) → map f (xs ++ ys) ≡ map f xs ++ map f ys
  map-append [] ys = refl
  map-append (x ∷ xs) ys = ap (λ us. f x ∷ us) (map-append xs ys)

  drop-map : (xs : List A) (n : ℕ) → drop (map f xs) n ≡ map f (drop xs n)
  drop-map [] n = refl
  drop-map (x ∷ xs) ℕ.zero = refl
  drop-map (x ∷ xs) (suc n) = drop-map xs n

take-drop : {A : Type 0} (xs : List A) (n : ℕ) → take xs n ++ drop xs n ≡ xs
take-drop [] n = refl
take-drop (x ∷ xs) ℕ.zero = refl
take-drop (x ∷ xs) (suc n) = ap (λ us. x ∷ us) (take-drop xs n)

rows_of :
    (C : Codec) (txs : List TransactionLogs) → map row (map (settled_of C) txs) ≡ map (entry C) txs
rows_of C [] = refl
rows_of C (tx ∷ txs) = ap (λ us. entry C tx ∷ us) (rows_of C txs)

module _ (R : Runtime) (C : Codec) where
  replay_from-append :
      (ts : List (String × List EmittedEvent)) (s : Analytics)
      (us : List (String × List EmittedEvent))
      → replay_from R s (ts ++ us) ≡ replay_from R (replay_from R s ts) us
  unfolding replay_from
  replay_from-append [] s us = refl
  replay_from-append (t ∷ ts) s us = replay_from-append ts _ us

  -- The head is the finalized state with the buffer on top, and the buffer is what is pending.
  record IsCoherent (s : Ingestor) : Type 0 where
    pub head : s.head ≡ replay_from R s.finalized (map (entry C) s.replay)
    pub pending : s.pending ≡ map pending_of s.replay

  revert_to-IsCoherent :
      (n : ℕ) (s : Ingestor)
      → IsCoherent (revert_to R C n s).0
        × ((revert_to R C n s).0.finalized ≡ s.finalized)
        × ((revert_to R C n s).1.settled ≡ [])
  unfolding revert_to
  revert_to-IsCoherent n s =
      let (state, settled) = apply_each-applied R C _ (take s.replay n) in
      (rw state (record { head = refl; pending = refl }), rw state refl, settled)

  extend_each-IsCoherent :
      (s : Ingestor × PollOutcome) (txs : List TransactionLogs)
      → IsCoherent s.0
      → IsCoherent (extend_each R C s txs).0
        × ((extend_each R C s txs).0.finalized ≡ s.0.finalized)
        × ((extend_each R C s txs).1.settled ≡ s.1.settled)
  extend_each-IsCoherent s txs v =
      let (state, settled) = extend_each-applied R C s txs in
      let both = map-append (entry C) s.0.replay txs in
      (
        rw state (record {
          head =
              ap (λ u. replay_from R u (map (entry C) txs)) v.head
              ∙ sym (
                  ap (replay_from R s.0.finalized) both
                  ∙ replay_from-append (map (entry C) s.0.replay) s.0.finalized
                      (map (entry C) txs));
          pending =
              ap (λ u. u ++ map pending_of txs) v.pending
              ∙ sym (map-append pending_of s.0.replay txs);
        }),
        rw state refl,
        settled,
      )

  -- What a promotion to finality does, with `n` transactions settled.
  advanced :
      (s : Ingestor × PollOutcome) (n : ℕ)
      → IsCoherent s.0
      → let t =
          settle_each R C (record (s.0) { replay = drop s.0.replay n }, s.1) (take s.0.replay n) in
        IsCoherent (record (t.0) { pending = drop t.0.pending n })
        × (t.0.finalized ≡ replay_from R s.0.finalized (map (entry C) (take s.0.replay n)))
        × (t.1.settled ≡ s.1.settled ++ map (settled_of C) (take s.0.replay n))
  advanced s n v =
      let (state, settled) =
        settle_each-settled R C (record (s.0) { replay = drop s.0.replay n }, s.1)
          (take s.0.replay n) in
      let split = sym (take-drop s.0.replay n) in
      (
        rw state (record {
          head =
              v.head
              ∙ ap (λ u. replay_from R s.0.finalized (map (entry C) u)) split
              ∙ ap (replay_from R s.0.finalized)
                  (map-append (entry C) (take s.0.replay n) (drop s.0.replay n))
              ∙ replay_from-append (map (entry C) (take s.0.replay n)) s.0.finalized
                  (map (entry C) (drop s.0.replay n));
          pending = ap (λ u. drop u n) v.pending ∙ drop-map pending_of s.0.replay n;
        }),
        ap (λ (u : Ingestor). u.finalized) state,
        settled,
      )

  -- What a step makes of the finalized state, by what it has settled.
  record Advances (s : Ingestor) (t : Ingestor × PollOutcome) : Type 0 where
    pub coherent : IsCoherent t.0
    pub finalized : t.0.finalized ≡ replay_from R s.finalized (map row t.1.settled)

  advance_finality-Advances :
      (slot : ℕ) (s : Ingestor × PollOutcome)
      → IsCoherent s.0
      → s.1.settled ≡ []
      → Advances s.0 (advance_finality R C slot s)
  unfolding advance_finality replay_from
  advance_finality-Advances slot s v none_yet =
      let n = settling slot s.0.replay in
      let (coherent, finalized, settled) = advanced s n v in
      elim (Bool-cases (n == 0)) [
        | inl e ↦ rw e (record { coherent = v; finalized = rw none_yet refl })
        | inr e ↦ rw e (record {
          coherent = coherent;
          finalized =
              finalized
              ∙ ap (replay_from R s.0.finalized)
                  (sym (ap (map row) (settled ∙ rw none_yet refl) ∙ rows_of C (take s.0.replay n)));
        })
      ]

  absorb-Advances :
      (slot : ℕ) (batch : List TransactionLogs) (s : Ingestor)
      → IsCoherent s
      → Advances s (absorb R C slot batch s)
  unfolding absorb
  absorb-Advances slot batch s v =
      let n = agreement s.replay batch in
      elim (Bool-cases (ltb n (length s.replay))) [
        | inl e ↦
            let (v', same, settled) = revert_to-IsCoherent n s in
            rw e (extended (revert_to R C n s) n v' same settled)
        | inr e ↦ rw e (extended (s, no_outcome) n v refl refl)
      ]
    where
      extended :
          (t : Ingestor × PollOutcome) (n : ℕ)
          → IsCoherent t.0
          → t.0.finalized ≡ s.finalized
          → t.1.settled ≡ []
          → Advances s (advance_finality R C slot (extend_each R C t (drop batch n)))
      extended t n v' same settled =
          let (v'', same', settled') = extend_each-IsCoherent t (drop batch n) v' in
          let k =
            advance_finality-Advances slot (extend_each R C t (drop batch n)) v''
              (settled' ∙ settled) in
          record {
            coherent = k.coherent;
            finalized =
                k.finalized
                ∙ ap
                    (λ u. replay_from R u (
                      map row
                        (advance_finality R C slot (extend_each R C t (drop batch n))).1.settled))
                    (same' ∙ same);
          }

  poll-absorbed :
      {E : Type 0} (s : Ingestor) (from : LogSource E) (limit : ℕ) (t : Ingestor × PollOutcome)
      → poll R C s from limit ≡ inr t
      → (slot : ℕ) × (batch : List TransactionLogs) × (absorb R C slot batch s ≡ t)
  unfolding poll
  poll-absorbed s from limit t h = elim (Sum-cases from.finalized_slot) [
    | inl (e, k) ↦ ground arith
    | inr (slot, k) ↦ elim (Sum-cases (from.fetch s.cursor limit)) [
      | inl (e, k') ↦ ground arith
      | inr (batch, k') ↦ elim (Option-cases (contradiction s.cursor batch)) [
        | inl k'' ↦ (slot, batch, ground arith)
        | inr (tx, k'') ↦ ground arith
      ]
    ]
  ]

  -- Polls of any sources, with all that they have settled, in order. A poll that fails leaves the
  -- ingestor as it is.
  pub data Run (E : Type 0) : Ingestor → List SettledTransaction → Type 1 where
    begins : Run E start []
    polls :
        {s : Ingestor} {done : List SettledTransaction} (from : LogSource E) (limit : ℕ)
        (t : Ingestor × PollOutcome)
        → Run E s done
        → poll R C s from limit ≡ inr t
        → Run E t.0 (done ++ t.1.settled)

  -- The finalized state is the replay of what was settled, and the head the replay of that and of the
  -- buffer; what is pending is the buffer.
  pub record Replays (s : Ingestor) (done : List SettledTransaction) : Type 0 where
    pub finalized : s.finalized ≡ replay R (map row done)
    pub head : s.head ≡ replay R (map row done ++ map (entry C) s.replay)
    pub pending : s.pending ≡ map pending_of s.replay

  Run-settled :
      {E : Type 0} {s : Ingestor} {done : List SettledTransaction}
      → Run E s done
      → IsCoherent s × (s.finalized ≡ replay_from R new (map row done))
  unfolding replay_from
  Run-settled begins = (record { head = refl; pending = refl }, refl)
  Run-settled (polls {s} {done} from limit t r h) =
      let (v, at) = Run-settled r in
      let (slot, batch, e) = poll-absorbed s from limit t h in
      let k = subst (Advances s) e (absorb-Advances slot batch s v) in
      (
        k.coherent,
        k.finalized
            ∙ ap (λ u. replay_from R u (map row t.1.settled)) at
            ∙ sym (
                ap (replay_from R new) (map-append row done t.1.settled)
                ∙ replay_from-append (map row done) new (map row t.1.settled)),
      )

  -- After any sequence of successful polls, rollbacks of the source included: the finalized state
  -- is the replay of all that was settled, in order; the head is the replay of that and of the
  -- buffer; and what is pending is the buffer.
  pub Run-Replays :
      {E : Type 0} (s : Ingestor) (done : List SettledTransaction) → Run E s done → Replays s done
  unfolding replay
  Run-Replays s done r =
      let (v, at) = Run-settled r in
      record {
        finalized = at;
        head =
            v.head
            ∙ ap (λ u. replay_from R u (map (entry C) s.replay)) at
            ∙ sym (replay_from-append (map row done) new (map (entry C) s.replay));
        pending = v.pending;
      }

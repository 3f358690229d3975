-- ===== src/Indexer/Backfill/Order.antt =====
-- The rows of a whole descent, each page before the ones that were read before it: the order in which
-- `replay` of indexer/src/projection.rs wants them.
use helix_protocol.Prelude.{
  ℕ, ◌≡◌, ◌≤◌, refl, ap, true, false, inl, inr, Option, none, some, List, [], ◌∷◌, ◌++◌, arith, ltb,
  Bool-cases, Option-cases, Sum-cases,
}
use helix_protocol.Prelude.Lists.{All}
use helix_protocol.Indexer.Logs.{Codec}
use helix_protocol.Indexer.Ingest.{TransactionLogs, SettledTransaction}
use helix_protocol.Indexer.Backfill.{
  Descent, PageRange, DescentPage, DescendingSource, BackfillBatch, at_tip, finished, collect,
  above, advance, step,
}

-- The slots rise.
abbrev pub Rising : List ℕ → Type 0
Rising [] = Unit
Rising (n ∷ ns) = All (λ m. n ≤ m) ns × Rising ns

abbrev pub slots : List SettledTransaction → List ℕ
slots [] = []
slots (tx ∷ txs) = tx.slot ∷ slots txs

abbrev pub log_slots : List TransactionLogs → List ℕ
log_slots [] = []
log_slots (tx ∷ txs) = tx.slot ∷ log_slots txs

-- What the source promises of a page: its transactions are in order, within what the page covers.
pub record KeepsOrder (p : DescentPage) : Type 0 where
  pub rising : Rising (log_slots p.transactions)
  pub within :
      (r : PageRange)
      → p.covered ≡ some r
      → All (λ n. r.oldest.slot ≤ n) (log_slots p.transactions)
        × All (λ n. n ≤ r.newest.slot) (log_slots p.transactions)
  pub span : (r : PageRange) → p.covered ≡ some r → r.oldest.slot ≤ r.newest.slot

-- Every row lies at the bound of the descent or later.
abbrev Above : Option ℕ → List ℕ → Type 0
Above none ns = ns ≡ []
Above (some b) ns = All (λ n. b ≤ n) ns

module _ (C : Codec) where
  collect-All :
      (P : ℕ → Type 0) (slot : ℕ) (txs : List TransactionLogs)
      → All P (log_slots txs)
      → All P (slots (collect C slot txs).transactions)
  unfolding collect
  collect-All P slot [] h = tt
  collect-All P slot (tx ∷ txs) (h, hs) =
      let rest = collect-All P slot txs hs in
      elim (Bool-cases (ltb slot tx.slot)) [ inl e ↦ rw e rest | inr e ↦ rw e (h, rest) ]

  collect-Rising :
      (slot : ℕ) (txs : List TransactionLogs)
      → Rising (log_slots txs)
      → Rising (slots (collect C slot txs).transactions)
  unfolding collect
  collect-Rising slot [] h = tt
  collect-Rising slot (tx ∷ txs) (h, hs) =
      let rest = collect-Rising slot txs hs in
      elim (Bool-cases (ltb slot tx.slot)) [
        | inl e ↦ rw e rest
        | inr e ↦ rw e (collect-All (λ m. tx.slot ≤ m) slot txs h, rest)
      ]

All-append : (P : ℕ → Type 0) (ns ms : List ℕ) → All P ns → All P ms → All P (ns ++ ms)
All-append P [] ms h k = k
All-append P (n ∷ ns) ms (h, hs) k = (h, All-append P ns ms hs k)

All-le : (a b : ℕ) (ns : List ℕ) → a ≤ b → All (λ n. b ≤ n) ns → All (λ n. a ≤ n) ns
All-le a b [] le h = tt
All-le a b (n ∷ ns) le (h, hs) = (omega (arith, h, le), All-le a b ns le hs)

Rising-append :
    (b : ℕ) (ns ms : List ℕ)
    → Rising ns
    → Rising ms
    → All (λ n. n ≤ b) ns
    → All (λ n. b ≤ n) ms
    → Rising (ns ++ ms)
Rising-append b [] ms h k below over = k
Rising-append b (n ∷ ns) ms (h, hs) k (below, bs) over =
    (All-append (λ m. n ≤ m) ns ms h (All-le n b ms below over), Rising-append b ns ms hs k bs over)

slots-append : (xs ys : List SettledTransaction) → slots (xs ++ ys) ≡ slots xs ++ slots ys
slots-append [] ys = refl
slots-append (x ∷ xs) ys = ap (λ us. x.slot ∷ us) (slots-append xs ys)

-- The steps of a descent from the tip, with the rows of all its pages. A step that fails leaves the
-- descent as it is.
pub data Descends (C : Codec) (E : Type 0) : Descent → List SettledTransaction → Type 1 where
  begins : Descends C E at_tip []
  steps :
      {d : Descent} {rows : List SettledTransaction} (from : DescendingSource E) (limit : ℕ)
      (t : Descent × BackfillBatch)
      → Descends C E d rows
      → ((p : DescentPage) → from.fetch_before d limit ≡ inr p → KeepsOrder p)
      → step C d from limit ≡ inr t
      → Descends C E t.0 (t.1.transactions ++ rows)

-- The rows so far rise, and lie at the bound of the descent or later.
abbrev IsReached : Descent → List SettledTransaction → Type 0
IsReached d rows = Rising (slots rows) × Above d.slot (slots rows)

-- A page that the bound admits goes before the rows.
module _ (C : Codec) (slot : ℕ) (p : DescentPage) (r : PageRange)
    (rows : List SettledTransaction) where
  page_before :
      (b : Option ℕ)
      → KeepsOrder p
      → p.covered ≡ some r
      → above b r.newest.slot ≡ false
      → Rising (slots rows)
      → Above b (slots rows)
      → Rising (slots ((collect C slot p.transactions).transactions ++ rows))
        × All
            (λ n. r.oldest.slot ≤ n)
            (slots ((collect C slot p.transactions).transactions ++ rows))
  unfolding above
  page_before b o e fits rising over =
      let (low, high) = o.within r e in
      let late = after_newest b fits over in
      rw (slots-append (collect C slot p.transactions).transactions rows) (
        Rising-append r.newest.slot (slots (collect C slot p.transactions).transactions)
            (slots rows) (collect-Rising C slot p.transactions o.rising) rising
            (collect-All C (λ n. n ≤ r.newest.slot) slot p.transactions high) late,
        All-append (λ n. r.oldest.slot ≤ n) (slots (collect C slot p.transactions).transactions)
            (slots rows) (collect-All C (λ n. r.oldest.slot ≤ n) slot p.transactions low)
            (All-le r.oldest.slot r.newest.slot (slots rows) (o.span r e) late),
      )
    where
      after_newest :
          (b : Option ℕ)
          → above b r.newest.slot ≡ false
          → Above b (slots rows)
          → All (λ n. r.newest.slot ≤ n) (slots rows)
      after_newest none fits none_yet = rw none_yet tt
      after_newest (some b) fits over = All-le r.newest.slot b (slots rows) (ground arith) over

module _ (C : Codec) (E : Type 0) where
  advance-IsReached :
      (d : Descent) (slot : ℕ) (p : DescentPage) (rows : List SettledTransaction)
      (t : Descent × BackfillBatch)
      → KeepsOrder p
      → advance {E = E} C d slot p ≡ inr t
      → IsReached d rows
      → IsReached t.0 (t.1.transactions ++ rows)
  unfolding advance
  advance-IsReached d slot p rows t o h (rising, over) = elim (Option-cases p.covered) [
    | inl e ↦
        let same : t ≡ (record d { complete = true }, finished) = ground arith in
        rw same (rising, over)
    | inr (r, e) ↦ elim (Bool-cases (above d.slot r.newest.slot)) [
      | inl too_high ↦ ground arith
      | inr fits ↦
          let same : t ≡ (
            record d { slot = some r.oldest.slot; signature = some r.oldest.signature },
            collect C slot p.transactions,
          ) =
            ground arith in
          rw same (page_before C slot p r rows d.slot o e fits rising over)
    ]
  ]

  Descends-IsReached :
      {d : Descent} {rows : List SettledTransaction} → Descends C E d rows → IsReached d rows
  unfolding step
  Descends-IsReached begins = (tt, refl)
  Descends-IsReached (steps {d} {rows} from limit t r keeps h) =
      let v = Descends-IsReached r in
      elim (Bool-cases d.complete) [
        | inl e ↦ let same : t ≡ (d, finished) = ground arith in rw same v
        | inr e ↦ elim (Sum-cases from.finalized_slot) [
          | inl (x, k) ↦ ground arith
          | inr (slot, k) ↦ elim (Sum-cases (from.fetch_before d limit)) [
            | inl (x, k') ↦ ground arith
            | inr (p, k') ↦ advance-IsReached d slot p rows t (keeps p k') (ground arith) v
          ]
        ]
      ]

  -- Let each page that the source answers with be in the order of the slots and within the range
  -- that it covers. Then the rows of a descent from the tip, each page put before the pages read
  -- earlier, are in the order of the slots.
  pub Descends-Rising :
      (d : Descent) (rows : List SettledTransaction) → Descends C E d rows → Rising (slots rows)
  Descends-Rising d rows r = (Descends-IsReached r).0

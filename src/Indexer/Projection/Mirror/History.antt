-- ===== src/Indexer/Projection/Mirror/History.antt =====
-- The projection along every history of programs/staking.
use helix_protocol.Prelude.{◌≡◌, refl, sym, subst, false, Bool, arith}
use helix_protocol.Anchor.{Runtime, TokenProgram}
use helix_protocol.Indexer.Maps.{EventId, contains, insert_id, lookup}
use helix_protocol.Indexer.Event.{HelixEvent}
use helix_protocol.Indexer.Projection.{Analytics}
use helix_protocol.Indexer.Projection.Apply.{fold, apply}
use helix_protocol.Indexer.Projection.Redelivery.{apply-known}
use helix_protocol.Indexer.Projection.Mirror.{
  Ledger, Emits, Indexed, begins, follows, redelivers, Mirrors,
}
use helix_protocol.Indexer.Projection.Mirror.Deposits.{staked-Mirrors}
use helix_protocol.Indexer.Projection.Mirror.Withdrawals.{claimed-Mirrors, unstaked-Mirrors}
use helix_protocol.Indexer.Projection.Mirror.Admin.{
  initialized-Mirrors, closed-Mirrors, funded-Mirrors, retuned-Mirrors, paused-Mirrors,
  accepted-Mirrors, proposed-Mirrors,
}

module _ (R : Runtime) (T : TokenProgram) (l : Ledger) (s : Analytics) (id : EventId) where
  emitted-Mirrors :
      (e : HelixEvent) (n : Ledger) → Emits R T l e n → Mirrors l s → Mirrors n (fold R s id e)
  unfolding fold
  emitted-Mirrors e n (Emits.initializes a now out absent h ee en) m =
      rw (ee, en) (initialized-Mirrors R T l s id a now out absent h m)
  emitted-Mirrors e n (Emits.stakes a now i amount tier out at absent h ee en) m =
      rw (ee, en) (staked-Mirrors R T l s id a now i amount tier out at h m)
  emitted-Mirrors e n (Emits.unstakes a now amount out at there h ee en) m =
      rw (ee, en) (unstaked-Mirrors R T l s id a now amount out at there h m)
  emitted-Mirrors e n (Emits.claims a now out at there h ee en) m =
      rw (ee, en) (claimed-Mirrors R T l s id a now out at there h m)
  emitted-Mirrors e n (Emits.closes a now event at h ee en) m =
      rw (ee, en) (closed-Mirrors R T l s id a now event at h m)
  emitted-Mirrors e n (Emits.funds a now amount out at h ee en) m =
      rw (ee, en) (funded-Mirrors R T l s id a now amount out at h m)
  emitted-Mirrors e n (Emits.retunes a now rate period_end out at h ee en) m =
      rw (ee, en) (retuned-Mirrors R T l s id a now rate period_end out at h m)
  emitted-Mirrors e n (Emits.pauses a now paused out at h ee en) m =
      rw (ee, en) (paused-Mirrors R T l s id a now paused out at h m)
  emitted-Mirrors e n (Emits.proposes a now new out at h ee en) m =
      rw (ee, en) (proposed-Mirrors R T l s id a now new out at h m)
  emitted-Mirrors e n (Emits.accepts a now out at h ee en) m =
      rw (ee, en) (accepted-Mirrors R T l s id a now out at h m)

apply-fresh :
    (R : Runtime) (s : Analytics) (id : EventId) (e : HelixEvent)
    → contains s.applied id ≡ false
    → (apply R s id e).1 ≡ fold R (record s { applied = insert_id s.applied id }) id e
unfolding apply
apply-fresh R s id e h = ground (arith, h)

-- Follow a history of the staking program, its pools and positions by their addresses, and fold
-- the event of each instruction once under a new id, with known ids delivered again at any point.
-- Then the projection has a row for each account and for no other, each row agrees with its
-- account in every field that the two share, a pool's period end at least where its rate is not
-- zero, no row has partial history, and no event is an orphan.
pub Indexed-Mirrors :
    (R : Runtime) (T : TokenProgram) (l : Ledger) (s : Analytics) → Indexed R T l s → Mirrors l s
unfolding lookup
Indexed-Mirrors R T _ _ begins = record { pools = λ k. tt; positions = λ k. tt; complete = refl }
Indexed-Mirrors R T n _ (follows {l} {s = s} id e r st new) =
    let m = Indexed-Mirrors R T l s r in
    let marked : Mirrors l (record s { applied = insert_id s.applied id }) = record {
      pools = m.pools;
      positions = m.positions;
      complete = m.complete;
    } in
    rw (apply-fresh R s id e new)
      (emitted-Mirrors R T l (record s { applied = insert_id s.applied id }) id e n st marked)
Indexed-Mirrors R T l _ (redelivers {s = s} id e r known) =
    subst (λ (u : Bool × Analytics). Mirrors l u.1) (sym (apply-known R s id e known))
      (Indexed-Mirrors R T l s r)

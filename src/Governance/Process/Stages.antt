-- ===== src/Governance/Process/Stages.antt =====
-- The condition of a proposal in each of its states, and what keeps it.
use helix_protocol.Prelude.{ℕ, ◌+◌, ◌≤◌, ◌<◌, ◌≡◌, ap, ◌∙◌, subst, List, [], inl, inr, arith, ◌⊎◌}
use helix_protocol.Prelude.Lists.{sum_by}
use helix_protocol.Prelude.Int.{ℤ, ◌≤ℤ◌, ◌+ℤ◌, +ℤ_mono}
use helix_protocol.Prelude.Fallible.{ok}
use helix_protocol.Governance.Types.{
  Realm, Proposal, ProposalState, VoteRecord, draft, voting, succeeded, defeated, queued, executed,
  cancelled, min_approval_bps, min_timelock_delay,
}
use helix_protocol.Governance.State.Outcome.{outcome_carries, Authorized}
use helix_protocol.Governance.Proposals.{ProposalAccounts}
use helix_protocol.Governance.Process.{Process}
use helix_protocol.Governance.Process.Moves.{outcome-cases, Finalized}

-- More weight for the proposal than against it.
abbrev pub Carried : Proposal → Type 0
Carried p = p.against_votes < p.for_votes

abbrev pub Stage : ProposalState → Process → Type 0
Stage draft s = s.records ≡ []
Stage voting s = Unit
Stage succeeded s = Carried s.proposal × (s.proposal.voting_ends_at ≤ℤ s.clock)
Stage defeated s = Unit
Stage queued s =
    Carried s.proposal × (s.proposal.voting_ends_at +ℤ min_timelock_delay ≤ℤ s.proposal.eta)
Stage executed s = Carried s.proposal × (s.proposal.voting_ends_at +ℤ min_timelock_delay ≤ℤ s.clock)
Stage cancelled s = Unit

abbrev pub weight_of : VoteRecord → ℕ
weight_of v = v.weight

pub record IsOrderly (s : Process) : Type 0 where
  pub approval : min_approval_bps ≤ s.realm.approval_bps
  pub delay : min_timelock_delay ≤ℤ s.realm.timelock_delay
  pub tallied :
      s.proposal.for_votes + s.proposal.against_votes + s.proposal.abstain_votes
      ≡ sum_by weight_of s.records
  pub stage : Stage s.proposal.state s

pub Finalized-IsOrderly :
    (s : Process) (a : ProposalAccounts) (now : ℤ) (q : Proposal)
    → a.proposal ≡ s.proposal
    → a.realm ≡ s.realm
    → Finalized a now q
    → IsOrderly s
    → IsOrderly (record s { proposal = q; clock = now })
Finalized-IsOrderly s a now q ep er f v =
    elim (outcome-cases a.proposal a.realm.quorum_bps a.realm.approval_bps f.result f.computed) [
      | inl e ↦
          let (more, _) =
            outcome_carries a.proposal a.realm.quorum_bps a.realm.approval_bps (rw er v.approval)
              (f.computed ∙ ap ok e) in
          rw (f.frame, e, ep)
            (record {
              approval = v.approval;
              delay = v.delay;
              tallied = v.tallied;
              stage = (rw (← ep) more, rw (← ep) f.ended);
            })
      | inr e ↦
          rw (f.frame, e, ep)
            (record { approval = v.approval; delay = v.delay; tallied = v.tallied; stage = tt })
    ]

pub queued-IsOrderly :
    (s : Process) (now : ℤ) (q : Proposal)
    → s.clock ≤ℤ now
    → s.proposal.state ≡ succeeded
    → q ≡ record (s.proposal) { state = queued; eta = now +ℤ s.realm.timelock_delay }
    → IsOrderly s
    → IsOrderly (record s { proposal = q; clock = now })
queued-IsOrderly s now q later was e v =
    let (more, ended) = subst (λ u. Stage u s) was v.stage in
    rw e (record {
      approval = v.approval;
      delay = v.delay;
      tallied = v.tallied;
      stage = (
        more,
        +ℤ_mono s.proposal.voting_ends_at now min_timelock_delay s.realm.timelock_delay
            (omega (arith, ended)) v.delay,
      );
    })

pub executed-IsOrderly :
    (s : Process) (now : ℤ) (q : Proposal)
    → Authorized s.proposal now q
    → IsOrderly s
    → IsOrderly (record s { proposal = q; clock = now })
executed-IsOrderly s now q z v =
    let (more, waited) = subst (λ u. Stage u s) z.was_queued v.stage in
    rw z.frame (record {
      approval = v.approval;
      delay = v.delay;
      tallied = v.tallied;
      stage = (more, omega (arith, z.after_eta));
    })

-- Under a later clock the stage stands.
Stage-later :
    (u : ProposalState) (s : Process) (r : Realm) (now : ℤ)
    → s.clock ≤ℤ now
    → Stage u s
    → Stage u (record s { realm = r; clock = now })
Stage-later draft s r now le h = h
Stage-later voting s r now le h = h
Stage-later succeeded s r now le h = (h.0, omega (arith, h.1))
Stage-later defeated s r now le h = h
Stage-later queued s r now le h = h
Stage-later executed s r now le h = (h.0, omega (arith, h.1))
Stage-later cancelled s r now le h = h

-- The realm may change under the proposal, within the bounds.
pub realm-IsOrderly :
    (s : Process) (r : Realm) (now : ℤ)
    → s.clock ≤ℤ now
    → min_approval_bps ≤ r.approval_bps
    → min_timelock_delay ≤ℤ r.timelock_delay
    → IsOrderly s
    → IsOrderly (record s { realm = r; clock = now })
realm-IsOrderly s r now later approval delay v = record {
  approval = approval;
  delay = delay;
  tallied = v.tallied;
  stage = Stage-later s.proposal.state s r now later v.stage;
}

-- A proposal that votes can still be cast on, or that is cancelled, asks nothing but the tally.
pub open-IsOrderly :
    (s : Process) (q : Proposal) (rs : List VoteRecord) (now : ℤ)
    → (q.state ≡ voting) ⊎ (q.state ≡ cancelled)
    → q.for_votes + q.against_votes + q.abstain_votes ≡ sum_by weight_of rs
    → IsOrderly s
    → IsOrderly (record s { proposal = q; records = rs; clock = now })
open-IsOrderly s q rs now (inl e) sum v = record {
  approval = v.approval;
  delay = v.delay;
  tallied = sum;
  stage = rw e tt;
}
open-IsOrderly s q rs now (inr e) sum v = record {
  approval = v.approval;
  delay = v.delay;
  tallied = sum;
  stage = rw e tt;
}

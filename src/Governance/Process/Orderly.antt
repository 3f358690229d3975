-- ===== src/Governance/Process/Orderly.antt =====
-- The conditions of a proposal in each of its states, over its whole history.
use helix_protocol.Prelude.{ℕ, String, ◌≤◌, ◌<◌, ◌≡◌, refl, subst, ◌∷◌, inl, inr, arith}
use helix_protocol.Prelude.Int.{ℤ, ◌≤ℤ◌, ◌+ℤ◌}
use helix_protocol.Prelude.Fallible.{ok}
use helix_protocol.Anchor.{Runtime}
use helix_protocol.Governance.Types.{
  ProposalAction, draft, executed, min_approval_bps, min_timelock_delay,
}
use helix_protocol.Governance.State.Outcome.{authorize_execution-Authorized}
use helix_protocol.Governance.Proposals.{
  CreateProposalAccounts, CreateProposalOutcome, create_proposal,
}
use helix_protocol.Governance.Execute.Gate.{update_realm_params-Passed, set_realm_authority-Passed}
use helix_protocol.Governance.Process.{Process, started, Step, Reach, here, next}
use helix_protocol.Governance.Process.Moves.{
  cast_vote-tallied, finalize_proposal-Finalized, queue_proposal-queued, create_proposal-frame,
  validate-floors, amended-floors, reassigned-frame, activate_proposal-voting,
  cancel_proposal-cancelled,
}
use helix_protocol.Governance.Process.Stages.{
  Stage, IsOrderly, Finalized-IsOrderly, queued-IsOrderly, executed-IsOrderly, realm-IsOrderly,
  open-IsOrderly,
}

module _ (R : Runtime) (s t : Process) where
  Step-IsOrderly : Step R s t → IsOrderly s → IsOrderly t
  Step-IsOrderly (Step.reparameterizes a now p out later er h e) v =
      let (approval, delay) = validate-floors R a now p out h in
      rw e (realm-IsOrderly s out.0 now later approval delay v)
  Step-IsOrderly (Step.proposes a now id action title uri out later er h e) v =
      let frame = create_proposal-frame R a now id action title uri out h in
      rw e (
        realm-IsOrderly s out.realm now later (ground (arith, frame, er, v.approval))
          (ground (arith, frame, er, v.delay)) v)
  Step-IsOrderly (Step.activates a now out later ep h e) v =
      let (state, yea, nay, neither) = activate_proposal-voting R a now out h in
      rw e (
        open-IsOrderly s out.0 s.records now (inl state)
          (ground (arith, yea, nay, neither, ep, v.tallied)) v)
  Step-IsOrderly (Step.votes a now choice out later ep h e) v =
      let (sum, state) = cast_vote-tallied R a now choice out h in
      rw e (
        open-IsOrderly s out.proposal (out.vote_record ∷ s.records) now (inl state)
          (ground (arith, sum, ep, v.tallied)) v)
  Step-IsOrderly (Step.finalizes a now out later ep er h e) v =
      rw e (Finalized-IsOrderly s a now out.0 ep er (finalize_proposal-Finalized R a now out h) v)
  Step-IsOrderly (Step.queues a now out later ep er h e) v =
      let (was, frame) = queue_proposal-queued R a now out h in
      rw e (queued-IsOrderly s now out.0 later (rw (← ep) was) (rw (← ep, ← er) frame) v)
  Step-IsOrderly (Step.cancels a guardian now out later ep h e) v =
      let frame = cancel_proposal-cancelled R a guardian now out h in
      rw e (
        open-IsOrderly s out.0 s.records now (inr (ground (arith, frame)))
          (ground (arith, frame, ep, v.tallied)) v)
  Step-IsOrderly (Step.executes now p later h e) v =
      rw e (executed-IsOrderly s now p (authorize_execution-Authorized s.proposal now p h) v)
  Step-IsOrderly (Step.amends a now out later er h e) v =
      let (approval, delay) = amended-floors R a now out h in
      rw e (realm-IsOrderly s out.1 now later approval delay v)
  Step-IsOrderly (Step.amends_itself a now out later er ep h e) v =
      let (approval, delay) = amended-floors R a now out h in
      let passed = update_realm_params-Passed R a now out h in
      let k =
        executed-IsOrderly s now out.0
          (authorize_execution-Authorized s.proposal now out.0 (rw (← ep) passed)) v in
      rw e (
        realm-IsOrderly (record s { proposal = out.0; clock = now }) out.1 now (omega arith)
          approval delay k)
  Step-IsOrderly (Step.reassigns a now out later er h e) v =
      let frame = reassigned-frame R a now out h in
      rw e (
        realm-IsOrderly s out.1 now later (ground (arith, frame, er, v.approval))
          (ground (arith, frame, er, v.delay)) v)
  Step-IsOrderly (Step.reassigns_itself a now out later er ep h e) v =
      let frame = reassigned-frame R a now out h in
      let passed = set_realm_authority-Passed R a now out h in
      let k =
        executed-IsOrderly s now out.0
          (authorize_execution-Authorized s.proposal now out.0 (rw (← ep) passed)) v in
      rw e (
        realm-IsOrderly (record s { proposal = out.0; clock = now }) out.1 now (omega arith)
          (ground (arith, frame, er, v.approval)) (ground (arith, frame, er, v.delay)) k)

Reach-IsOrderly : (R : Runtime) (s t : Process) → IsOrderly s → Reach R s t → IsOrderly t
Reach-IsOrderly R s t v here = v
Reach-IsOrderly R s t v (next {t = m} r st) = Step-IsOrderly R m t st (Reach-IsOrderly R s m v r)

created-IsOrderly :
    (R : Runtime) (a : CreateProposalAccounts) (now : ℤ) (id : ℕ) (action : ProposalAction)
    (title uri : String) (out : CreateProposalOutcome)
    → min_approval_bps ≤ a.realm.approval_bps
    → min_timelock_delay ≤ℤ a.realm.timelock_delay
    → create_proposal R a now id action title uri ≡ ok out
    → IsOrderly (started out now)
unfolding create_proposal
created-IsOrderly R a now id action title uri out approval delay h =
    let state : out.proposal.state ≡ draft = ground arith in
    record {
      approval = ground arith;
      delay = ground arith;
      tallied = ground arith;
      stage = rw state refl;
    }

-- Let a proposal be created in a realm whose approval threshold and timelock are at least the
-- lower bounds. After any sequence of transactions, the creation of other proposals in the realm
-- included, the realm keeps these bounds, the tally of the proposal is the total weight of the
-- vote records, and the proposal meets the condition of its state: no vote on a draft, and for a
-- succeeded, queued or executed one a carried vote and the end of the vote, the eta or the clock
-- late enough.
pub started-IsOrderly :
    (R : Runtime) (a : CreateProposalAccounts) (now : ℤ) (id : ℕ) (action : ProposalAction)
    (title uri : String) (out : CreateProposalOutcome) (t : Process)
    → min_approval_bps ≤ a.realm.approval_bps
    → min_timelock_delay ≤ℤ a.realm.timelock_delay
    → create_proposal R a now id action title uri ≡ ok out
    → Reach R (started out now) t
    → IsOrderly t
started-IsOrderly R a now id action title uri out t approval delay h r =
    Reach-IsOrderly R (started out now) t
      (created-IsOrderly R a now id action title uri out approval delay h) r

-- Let a proposal be created in a realm whose approval threshold and timelock are at least the
-- lower bounds. Whatever sequence of transactions follows, changes of the realm's parameters and
-- the creation of other proposals in the realm included: if the proposal is executed, more weight
-- was cast for it than against it, and the clock is past the end of the vote by at least the least
-- timelock.
pub executed_waited :
    (R : Runtime) (a : CreateProposalAccounts) (now : ℤ) (id : ℕ) (action : ProposalAction)
    (title uri : String) (out : CreateProposalOutcome) (t : Process)
    → min_approval_bps ≤ a.realm.approval_bps
    → min_timelock_delay ≤ℤ a.realm.timelock_delay
    → create_proposal R a now id action title uri ≡ ok out
    → Reach R (started out now) t
    → t.proposal.state ≡ executed
    → (t.proposal.against_votes < t.proposal.for_votes)
      × (t.proposal.voting_ends_at +ℤ min_timelock_delay ≤ℤ t.clock)
executed_waited R a now id action title uri out t approval delay h r e =
    subst (λ u. Stage u t) e
      (started-IsOrderly R a now id action title uri out t approval delay h r).stage

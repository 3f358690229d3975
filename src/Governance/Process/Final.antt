-- ===== src/Governance/Process/Final.antt =====
-- The end of a proposal: the terminal states of programs/governance/src/state.rs.
use helix_protocol.Prelude.{◌≡◌, ◌∙◌, ap, true, false, refl}
use helix_protocol.Anchor.{Runtime}
use helix_protocol.Governance.Types.{ProposalState}
use helix_protocol.Governance.State.{is_terminal}
use helix_protocol.Governance.State.Outcome.{authorize_execution-Authorized}
use helix_protocol.Governance.Execute.Gate.{update_realm_params-Passed, set_realm_authority-Passed}
use helix_protocol.Governance.Process.{Process, Step, Reach, here, next}
use helix_protocol.Governance.Process.Moves.{
  activate_proposal-was, cast_vote-was, finalize_proposal-was, queue_proposal-queued,
  cancel_proposal-open,
}

-- An instruction that needs a state which is not terminal does not apply to a decided proposal.
undecided :
    (u v : ProposalState) {A : Type 0} → u ≡ v → is_terminal v ≡ false → is_terminal u ≡ true → A
undecided u v e open_v closed = cc

module _ (R : Runtime) (s t : Process) where
  Step-final : Step R s t → is_terminal s.proposal.state ≡ true → t.proposal ≡ s.proposal
  unfolding is_terminal
  Step-final (Step.reparameterizes a now p out later er h e) d = ap (λ (u : Process). u.proposal) e
  Step-final (Step.proposes a now id action title uri out later er h e) d =
      ap (λ (u : Process). u.proposal) e
  Step-final (Step.activates a now out later ep h e) d =
      undecided a.on.proposal.state _ (activate_proposal-was R a now out h) refl (rw ep d)
  Step-final (Step.votes a now choice out later ep h e) d =
      undecided a.on.proposal.state _ (cast_vote-was R a now choice out h) refl (rw ep d)
  Step-final (Step.finalizes a now out later ep er h e) d =
      undecided a.proposal.state _ (finalize_proposal-was R a now out h) refl (rw ep d)
  Step-final (Step.queues a now out later ep er h e) d =
      undecided a.proposal.state _ (queue_proposal-queued R a now out h).0 refl (rw ep d)
  Step-final (Step.cancels a guardian now out later ep h e) d =
      undecided a.proposal.state _ refl (cancel_proposal-open R a guardian now out h) (rw ep d)
  Step-final (Step.executes now p later h e) d =
      undecided _ _ (authorize_execution-Authorized s.proposal now p h).was_queued refl d
  Step-final (Step.amends a now out later er h e) d = ap (λ (u : Process). u.proposal) e
  Step-final (Step.amends_itself a now out later er ep h e) d =
      undecided a.on.proposal.state _
        (authorize_execution-Authorized a.on.proposal now out.0
          (update_realm_params-Passed R a now out h)).was_queued
        refl (rw ep d)
  Step-final (Step.reassigns a now out later er h e) d = ap (λ (u : Process). u.proposal) e
  Step-final (Step.reassigns_itself a now out later er ep h e) d =
      undecided a.on.proposal.state _
        (authorize_execution-Authorized a.on.proposal now out.0
          (set_realm_authority-Passed R a now out h)).was_queued
        refl (rw ep d)

-- Once a proposal is defeated, executed or cancelled, no sequence of transactions changes it; so
-- it is executed at most once.
pub Reach-final :
    (R : Runtime) (s t : Process)
    → Reach R s t
    → is_terminal s.proposal.state ≡ true
    → t.proposal ≡ s.proposal
Reach-final R s t here d = refl
Reach-final R s t (next {t = m} r st) d =
    let before : m.proposal ≡ s.proposal = Reach-final R s m r d in
    Step-final R m t st (rw before d) ∙ before

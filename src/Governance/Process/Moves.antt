-- ===== src/Governance/Process/Moves.antt =====
-- The effects of the instructions on a proposal, where they succeed.
use helix_protocol.Prelude.{
  ℕ, String, ◌+◌, ◌≤◌, ◌≡◌, refl, sym, ap, ◌∙◌, true, false, ◌&&◌, inl, inr, arith, ◌==◌,
  if◌then◌else◌, ◌⊎◌, Bool-cases,
}
use helix_protocol.Prelude.Int.{ℤ, ◌≤ℤ◌, ◌+ℤ◌}
use helix_protocol.Prelude.Fallible.{ok, Result-cases, >>-eq-ok}
use helix_protocol.Anchor.{Pubkey, Runtime}
use helix_protocol.Governance.Types.{
  Realm, RealmParams, Proposal, ProposalAction, ProposalState, VoteChoice, draft, voting, succeeded,
  defeated, queued, executed, cancelled, in_favour, against, abstain, min_approval_bps,
  min_timelock_delay, action_account_mismatch,
}
use helix_protocol.Governance.Events.{
  ProposalFinalized, ProposalQueued, ProposalActivated, ProposalCancelled, RealmParamsUpdated,
  RealmAuthorityChanged, ProposalExecuted,
}
use helix_protocol.Governance.State.{
  discriminant, quorum_reached, approval_reached, outcome, tally, require_state, is_cancellable,
  is_terminal, expires_at, authorize_execution,
}
use helix_protocol.Governance.Realm.{validate, UpdateRealmParamsAccounts, update_realm_params}
use helix_protocol.Governance.Proposals.{
  CreateProposalAccounts, CreateProposalOutcome, create_proposal, ProposalAccounts, check_proposal,
  ActivateProposalAccounts, activate_proposal, cancel_proposal,
}
use helix_protocol.Governance.Vote.{
  CastVoteAccounts, CastVoteOutcome, check_cast_vote, cast_vote_handler, cast_vote,
}
use helix_protocol.Governance.Execute.{ExecuteAccounts}
use helix_protocol.Governance.Execute.Realm.{
  check_execute_realm_config, update_realm_params_of, execute_update_realm_params,
  set_realm_authority_of, execute_set_realm_authority,
}
use helix_protocol.Governance.Execute.Mandate.{matched}
use helix_protocol.Governance.Lifecycle.{finalize_proposal, queue_proposal}

abbrev of_discriminant : ℕ → ProposalState
of_discriminant n =
    if n == 0
    then draft
    else if n == 1
    then voting
    else if n == 2
    then succeeded
    else if n == 3
    then defeated
    else if n == 4
    then queued
    else if n == 5
    then executed
    else cancelled

of-discriminant : (s : ProposalState) → of_discriminant (discriminant s) ≡ s
of-discriminant draft = refl
of-discriminant voting = refl
of-discriminant succeeded = refl
of-discriminant defeated = refl
of-discriminant queued = refl
of-discriminant executed = refl
of-discriminant cancelled = refl

require_state-eq : (p : Proposal) (s : ProposalState) → require_state p s ≡ ok tt → p.state ≡ s
unfolding require_state
require_state-eq p s h =
    let same : discriminant p.state ≡ discriminant s = ground arith in
    sym (of-discriminant p.state) ∙ ap of_discriminant same ∙ of-discriminant s

tally-frame :
    (p : Proposal) (choice : VoteChoice) (w : ℕ) (q : Proposal)
    → tally p choice w ≡ ok q
    → (q.for_votes + q.against_votes + q.abstain_votes
        ≡ p.for_votes + p.against_votes + p.abstain_votes + w)
      × (q.state ≡ p.state)
unfolding tally
tally-frame p in_favour w q h = (ground arith, ground arith)
tally-frame p against w q h = (ground arith, ground arith)
tally-frame p abstain w q h = (ground arith, ground arith)

pub cast_vote-tallied :
    (R : Runtime) (a : CastVoteAccounts) (now : ℤ) (choice : VoteChoice) (out : CastVoteOutcome)
    → cast_vote R a now choice ≡ ok out
    → (out.proposal.for_votes + out.proposal.against_votes + out.proposal.abstain_votes
        ≡ a.on.proposal.for_votes + a.on.proposal.against_votes + a.on.proposal.abstain_votes
          + out.vote_record.weight)
      × (out.proposal.state ≡ voting)
unfolding cast_vote cast_vote_handler
cast_vote-tallied R a now choice out h =
    let k = (>>-eq-ok (check_cast_vote R a) _ h).1 in
    let was : a.on.proposal.state ≡ voting =
      require_state-eq a.on.proposal voting (>>-eq-ok (require_state a.on.proposal voting) _ k).0 in
    elim (Result-cases (tally a.on.proposal choice a.position.weighted_amount)) [
      | inl (f, e) ↦ ground arith
      | inr (q, e) ↦
          let (sum, same) = tally-frame a.on.proposal choice a.position.weighted_amount q e in
          (ground (arith, sum), ground (arith, same, was))
    ]

pub outcome-cases :
    (p : Proposal) (quorum approval : ℕ) (r : ProposalState)
    → outcome p quorum approval ≡ ok r
    → (r ≡ succeeded) ⊎ (r ≡ defeated)
unfolding outcome
outcome-cases p quorum approval r h = elim (Result-cases (quorum_reached p quorum)) [
  | inl (f, e) ↦ ground arith
  | inr (reached, e) ↦ elim (Result-cases (approval_reached p approval)) [
    | inl (f, e') ↦ elim (Bool-cases reached) [ inl b ↦ ground arith | inr b ↦ inr (ground arith) ]
    | inr (approved, e') ↦ elim (Bool-cases (reached && approved)) [
      | inl b ↦ inl (ground arith)
      | inr b ↦ inr (ground arith)
    ]
  ]
]

-- What a finalization does: it writes the outcome.
pub record Finalized (a : ProposalAccounts) (now : ℤ) (q : Proposal) : Type 0 where
  pub result : ProposalState
  pub ended : a.proposal.voting_ends_at ≤ℤ now
  pub computed : outcome a.proposal a.realm.quorum_bps a.realm.approval_bps ≡ ok result
  pub frame : q ≡ record (a.proposal) { state = result }

pub finalize_proposal-Finalized :
    (R : Runtime) (a : ProposalAccounts) (now : ℤ) (out : Proposal × ProposalFinalized)
    → finalize_proposal R a now ≡ ok out
    → Finalized a now out.0
unfolding finalize_proposal
finalize_proposal-Finalized R a now out h =
    elim (Result-cases (outcome a.proposal a.realm.quorum_bps a.realm.approval_bps)) [
      | inl (f, e) ↦ ground arith
      | inr (r, e) ↦ record { result = r; ended = ground arith; computed = e; frame = ground arith }
    ]

pub queue_proposal-queued :
    (R : Runtime) (a : ProposalAccounts) (now : ℤ) (out : Proposal × ProposalQueued)
    → queue_proposal R a now ≡ ok out
    → (a.proposal.state ≡ succeeded)
      × (out.0 ≡ record (a.proposal) { state = queued; eta = now +ℤ a.realm.timelock_delay })
unfolding queue_proposal expires_at
queue_proposal-queued R a now out h =
    let k = (>>-eq-ok (check_proposal R a) _ h).1 in
    (
      require_state-eq a.proposal succeeded (>>-eq-ok (require_state a.proposal succeeded) _ k).0,
      ground arith,
    )

pub validate-floors :
    (R : Runtime) (a : UpdateRealmParamsAccounts) (now : ℤ) (p : RealmParams)
    (out : Realm × RealmParamsUpdated)
    → update_realm_params R a now p ≡ ok out
    → (min_approval_bps ≤ out.0.approval_bps) × (min_timelock_delay ≤ℤ out.0.timelock_delay)
unfolding update_realm_params validate
validate-floors R a now p out h = (ground arith, ground arith)

pub amended-floors :
    (R : Runtime) (a : ExecuteAccounts) (now : ℤ)
    (out : Proposal × Realm × RealmParamsUpdated × ProposalExecuted)
    → execute_update_realm_params R a now ≡ ok out
    → (min_approval_bps ≤ out.1.approval_bps) × (min_timelock_delay ≤ℤ out.1.timelock_delay)
unfolding execute_update_realm_params validate
amended-floors R a now out h =
    let (params, e, k) =
      matched (check_execute_realm_config R a) (update_realm_params_of a.on.proposal.action)
        action_account_mismatch _ h in
    elim (Result-cases (authorize_execution a.on.proposal now)) [
      | inl (f, e') ↦ ground arith
      | inr (q, e') ↦ (ground arith, ground arith)
    ]

pub reassigned-frame :
    (R : Runtime) (a : ExecuteAccounts) (now : ℤ)
    (out : Proposal × Realm × RealmAuthorityChanged × ProposalExecuted)
    → execute_set_realm_authority R a now ≡ ok out
    → out.1 ≡ record (a.on.realm) { authority = out.1.authority }
unfolding execute_set_realm_authority
reassigned-frame R a now out h =
    let (x, e, k) =
      matched (check_execute_realm_config R a) (set_realm_authority_of a.on.proposal.action)
        action_account_mismatch _ h in
    elim (Result-cases (authorize_execution a.on.proposal now)) [
      | inl (f, e') ↦ ground arith
      | inr (q, e') ↦ ground arith
    ]

-- The creation of a proposal changes the realm's counter only.
pub create_proposal-frame :
    (R : Runtime) (a : CreateProposalAccounts) (now : ℤ) (id : ℕ) (action : ProposalAction)
    (title uri : String) (out : CreateProposalOutcome)
    → create_proposal R a now id action title uri ≡ ok out
    → out.realm ≡ record (a.realm) { proposal_count = out.realm.proposal_count }
unfolding create_proposal
create_proposal-frame R a now id action title uri out h = ground arith

pub activate_proposal-voting :
    (R : Runtime) (a : ActivateProposalAccounts) (now : ℤ) (out : Proposal × ProposalActivated)
    → activate_proposal R a now ≡ ok out
    → (out.0.state ≡ voting)
      × (out.0.for_votes ≡ a.on.proposal.for_votes)
      × (out.0.against_votes ≡ a.on.proposal.against_votes)
      × (out.0.abstain_votes ≡ a.on.proposal.abstain_votes)
unfolding activate_proposal
activate_proposal-voting R a now out h = (ground arith, ground arith, ground arith, ground arith)

pub cancel_proposal-cancelled :
    (R : Runtime) (a : ProposalAccounts) (guardian : Pubkey) (now : ℤ)
    (out : Proposal × ProposalCancelled)
    → cancel_proposal R a guardian now ≡ ok out
    → out.0 ≡ record (a.proposal) { state = cancelled }
unfolding cancel_proposal
cancel_proposal-cancelled R a guardian now out h = ground arith

cancellable_open : (u : ProposalState) → is_cancellable u ≡ true → is_terminal u ≡ false
unfolding is_cancellable is_terminal
cancellable_open draft h = refl
cancellable_open voting h = refl
cancellable_open succeeded h = refl
cancellable_open defeated h = cc
cancellable_open queued h = refl
cancellable_open executed h = cc
cancellable_open cancelled h = cc

pub cancel_proposal-open :
    (R : Runtime) (a : ProposalAccounts) (guardian : Pubkey) (now : ℤ)
    (out : Proposal × ProposalCancelled)
    → cancel_proposal R a guardian now ≡ ok out
    → is_terminal a.proposal.state ≡ false
unfolding cancel_proposal
cancel_proposal-open R a guardian now out h = cancellable_open a.proposal.state (ground arith)

decided : (u v : ProposalState) → (discriminant u == discriminant v) ≡ true → u ≡ v
decided u v h =
    let same : discriminant u ≡ discriminant v = ground arith in
    sym (of-discriminant u) ∙ ap of_discriminant same ∙ of-discriminant v

pub activate_proposal-was :
    (R : Runtime) (a : ActivateProposalAccounts) (now : ℤ) (out : Proposal × ProposalActivated)
    → activate_proposal R a now ≡ ok out
    → a.on.proposal.state ≡ draft
unfolding activate_proposal require_state
activate_proposal-was R a now out h = decided a.on.proposal.state draft (ground arith)

pub cast_vote-was :
    (R : Runtime) (a : CastVoteAccounts) (now : ℤ) (choice : VoteChoice) (out : CastVoteOutcome)
    → cast_vote R a now choice ≡ ok out
    → a.on.proposal.state ≡ voting
unfolding cast_vote cast_vote_handler require_state
cast_vote-was R a now choice out h = decided a.on.proposal.state voting (ground arith)

pub finalize_proposal-was :
    (R : Runtime) (a : ProposalAccounts) (now : ℤ) (out : Proposal × ProposalFinalized)
    → finalize_proposal R a now ≡ ok out
    → a.proposal.state ≡ voting
unfolding finalize_proposal require_state
finalize_proposal-was R a now out h = decided a.proposal.state voting (ground arith)

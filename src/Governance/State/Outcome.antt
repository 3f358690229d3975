-- ===== src/Governance/State/Outcome.antt =====
-- The outcome of a vote and the gate of execution: `Proposal::outcome` of
-- programs/governance/src/state.rs and `authorize_execution` of instructions/execute.rs.
use native.Mathlib.Nat.{mul-le-mul_left}
use helix_protocol.Prelude.{ℕ, ◌+◌, ◌*◌, ◌≤◌, ◌<◌, ◌≡◌, refl, true, inl, inr, arith, ◌==◌}
use helix_protocol.Prelude.Int.{ℤ, ◌≤ℤ◌, ◌+ℤ◌}
use helix_protocol.Prelude.Fallible.{ok, Result-cases}
use helix_protocol.Governance.Types.{
  Proposal, ProposalState, succeeded, queued, executed, bps_denominator, min_approval_bps,
  execution_grace_period,
}
use helix_protocol.Governance.State.{
  total_votes, decisive_votes, quorum_reached, approval_of, approval_reached, outcome, expires_at,
  require_state, authorize_execution, discriminant,
}

quorum_reached-exact :
    (p : Proposal) (bps : ℕ)
    → quorum_reached p bps ≡ ok true
    → p.total_weight_snapshot * bps
      ≤ (p.for_votes + p.against_votes + p.abstain_votes) * bps_denominator
unfolding quorum_reached total_votes
quorum_reached-exact p bps h = ground arith

approval_reached-exact :
    (p : Proposal) (bps : ℕ)
    → approval_reached p bps ≡ ok true
    → (0 < p.for_votes + p.against_votes)
      × ((p.for_votes + p.against_votes) * bps ≤ p.for_votes * bps_denominator)
unfolding approval_reached approval_of decisive_votes
approval_reached-exact p bps h = (ground arith, ground arith)

pub outcome-carried :
    (p : Proposal) (quorum approval : ℕ)
    → outcome p quorum approval ≡ ok succeeded
    → (quorum_reached p quorum ≡ ok true) × (approval_reached p approval ≡ ok true)
unfolding outcome
outcome-carried p quorum approval h = elim (Result-cases (quorum_reached p quorum)) [
  | inl (f, e) ↦ ground arith
  | inr (reached, e) ↦ elim (Result-cases (approval_reached p approval)) [
    | inl (f, e') ↦ ground arith
    | inr (approved, e') ↦ (ground arith, ground arith)
  ]
]

majority :
    (a b bps : ℕ) → min_approval_bps ≤ bps → 0 < a + b → (a + b) * bps ≤ a * bps_denominator → b < a
majority a b bps le positive h =
    omega (arith, mul-le-mul_left {m = min_approval_bps} {n = bps} (a + b) le)

-- With an approval threshold of at least the lower bound, an outcome of success has more weight
-- for the proposal than against it, and the weight cast reaches the quorum of the snapshot.
pub outcome_carries :
    (p : Proposal) (quorum approval : ℕ)
    → min_approval_bps ≤ approval
    → outcome p quorum approval ≡ ok succeeded
    → (p.against_votes < p.for_votes)
      × (p.total_weight_snapshot * quorum
          ≤ (p.for_votes + p.against_votes + p.abstain_votes) * bps_denominator)
outcome_carries p quorum approval floor h =
    let (q, a) = outcome-carried p quorum approval h in
    let (some_votes, scaled) = approval_reached-exact p approval a in
    (
      majority p.for_votes p.against_votes approval floor some_votes scaled,
      quorum_reached-exact p quorum q,
    )

-- What an authorization needs, and does.
pub record Authorized (p : Proposal) (now : ℤ) (q : Proposal) : Type 0 where
  pub was_queued : p.state ≡ queued
  pub after_eta : p.eta ≤ℤ now
  pub before_expiry : now ≤ℤ p.eta +ℤ execution_grace_period
  pub frame : q ≡ record p { state = executed }

queued_of : (s : ProposalState) → (discriminant s == discriminant queued) ≡ true → s ≡ queued
queued_of ProposalState.queued h = refl
queued_of _ h = cc

-- A successful authorization is of a queued proposal, at a time from its eta to the end of the
-- grace period, and changes only its state, to executed.
pub authorize_execution-Authorized :
    (p : Proposal) (now : ℤ) (q : Proposal) → authorize_execution p now ≡ ok q → Authorized p now q
unfolding authorize_execution require_state expires_at
authorize_execution-Authorized p now q h = record {
  was_queued = queued_of p.state (ground arith);
  after_eta = ground arith;
  before_expiry = ground arith;
  frame = ground arith;
}

-- ===== src/Governance/State.antt =====
-- The methods of programs/governance/src/state.rs, and the gate of instructions/execute.rs.
pub mod Outcome
use helix_protocol.Prelude.{ℕ, ◌*◌, Bool, true, false, ◌==◌, leb, ◌&&◌, if◌then◌else◌}
use helix_protocol.Prelude.Int.{ℤ, leb_ℤ}
use helix_protocol.Prelude.Machine.{u64_max, u128_max, checked_add, checked_mul, checked_add_i64}
use helix_protocol.Prelude.Fallible.{Result, ok, ◌>>=◌, ◌>>◌, require, ok_or}
use helix_protocol.Governance.Types.{
  GovernanceError, math_overflow, invalid_proposal_state, timelock_not_elapsed, proposal_expired,
  ProposalState, draft, voting, succeeded, defeated, queued, executed, cancelled, VoteChoice,
  in_favour, against, abstain, Proposal, bps_denominator, execution_grace_period,
}

abbrev pub Fallible {ℓ} : Type ℓ → Type ℓ
Fallible A = Result GovernanceError A

-- The position of a state among the constructors, by which states are compared.
abbrev pub discriminant : ProposalState → ℕ
discriminant draft = 0
discriminant voting = 1
discriminant succeeded = 2
discriminant defeated = 3
discriminant queued = 4
discriminant executed = 5
discriminant cancelled = 6

-- `ProposalState::is_cancellable`.
unfoldable pub is_cancellable : ProposalState → Bool
is_cancellable draft = true
is_cancellable voting = true
is_cancellable succeeded = true
is_cancellable defeated = false
is_cancellable queued = true
is_cancellable executed = false
is_cancellable cancelled = false

-- `ProposalState::is_terminal`.
unfoldable pub is_terminal : ProposalState → Bool
is_terminal draft = false
is_terminal voting = false
is_terminal succeeded = false
is_terminal defeated = true
is_terminal queued = false
is_terminal executed = true
is_terminal cancelled = true

-- `Proposal::total_votes`.
unfoldable pub total_votes : Proposal → Fallible ℕ
total_votes p = do
  decisive ← ok_or (checked_add u64_max p.for_votes p.against_votes) math_overflow
  ok_or (checked_add u64_max decisive p.abstain_votes) math_overflow

-- `Proposal::decisive_votes`.
unfoldable pub decisive_votes : Proposal → Fallible ℕ
decisive_votes p = ok_or (checked_add u64_max p.for_votes p.against_votes) math_overflow

-- `Proposal::quorum_reached`.
unfoldable pub quorum_reached : Proposal → ℕ → Fallible Bool
quorum_reached p quorum_bps = do
  participated ← total_votes p
  required ← ok_or (checked_mul u128_max p.total_weight_snapshot quorum_bps) math_overflow
  scaled ← ok_or (checked_mul u128_max participated bps_denominator) math_overflow
  ok (leb required scaled)

-- `Proposal::approval_reached`, with decisive votes.
unfoldable pub approval_of : Proposal → ℕ → ℕ → Fallible Bool
approval_of p decisive approval_bps = do
  required ← ok_or (checked_mul u128_max decisive approval_bps) math_overflow
  scaled ← ok_or (checked_mul u128_max p.for_votes bps_denominator) math_overflow
  ok (leb required scaled)

-- `Proposal::approval_reached`.
unfoldable pub approval_reached : Proposal → ℕ → Fallible Bool
approval_reached p approval_bps = do
  decisive ← decisive_votes p
  if decisive == 0 then ok false else approval_of p decisive approval_bps

-- `Proposal::outcome`. The approval is evaluated only where the quorum is reached.
unfoldable pub outcome : Proposal → ℕ → ℕ → Fallible ProposalState
outcome p quorum_bps approval_bps = do
  quorum ← quorum_reached p quorum_bps
  approved ← if quorum then approval_reached p approval_bps else ok false
  ok (if approved then succeeded else defeated)

-- `Proposal::tally`.
unfoldable pub tally : Proposal → VoteChoice → ℕ → Fallible Proposal
tally p in_favour weight = do
  votes ← ok_or (checked_add u64_max p.for_votes weight) math_overflow
  ok (record p { for_votes = votes })
tally p against weight = do
  votes ← ok_or (checked_add u64_max p.against_votes weight) math_overflow
  ok (record p { against_votes = votes })
tally p abstain weight = do
  votes ← ok_or (checked_add u64_max p.abstain_votes weight) math_overflow
  ok (record p { abstain_votes = votes })

-- `Proposal::expires_at`.
unfoldable pub expires_at : Proposal → Fallible ℤ
expires_at p = ok_or (checked_add_i64 p.eta execution_grace_period) math_overflow

-- `Proposal::require_state`.
unfoldable pub require_state : Proposal → ProposalState → Fallible (Unit {0})
require_state p expected =
    require (discriminant p.state == discriminant expected) invalid_proposal_state

-- `authorize_execution`.
unfoldable pub authorize_execution : Proposal → ℤ → Fallible Proposal
authorize_execution p now = do
  require_state p queued
  require (leb_ℤ p.eta now) timelock_not_elapsed
  expiry ← expires_at p
  require (leb_ℤ now expiry) proposal_expired
  ok (record p { state = executed })

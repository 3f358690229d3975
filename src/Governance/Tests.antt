-- ===== src/Governance/Tests.antt =====
-- A proposal from its creation to its execution, and the theorems about governance at work on it.
use helix_protocol.Prelude.{◌+◌, ◌*◌, ◌≤◌, ◌<◌, ◌≡◌, refl, false, none, [], ◌∷◌, arith}
use helix_protocol.Prelude.Int.{pos, ◌+ℤ◌, ◌≤ℤ◌}
use helix_protocol.Prelude.Fallible.{ok}
use helix_protocol.Samples.{runtime}
use helix_protocol.Staking.Types.{Pool, Position, gold}
use helix_protocol.Staking.State.{can_vote_until}
use helix_protocol.Governance.Types.{
  Realm, RealmParams, Proposal, ProposalAction, succeeded, in_favour, bps_denominator,
  min_timelock_delay,
}
use helix_protocol.Governance.Events.{
  ProposalActivated, ProposalFinalized, ProposalQueued, RealmParamsUpdated,
}
use helix_protocol.Governance.State.{
  is_terminal, require_state, outcome, quorum_reached, total_votes, approval_reached, approval_of,
  decisive_votes, tally, expires_at, authorize_execution,
}
use helix_protocol.Governance.State.Outcome.{
  outcome_carries, Authorized, authorize_execution-Authorized,
}
use helix_protocol.Governance.Realm.{validate, UpdateRealmParamsAccounts, update_realm_params}
use helix_protocol.Governance.Process.Final.{Reach-final}
use helix_protocol.Governance.Proposals.{
  CreateProposalAccounts, CreateProposalOutcome, check_create_proposal, create_proposal,
  ProposalAccounts, check_proposal, ActivateProposalAccounts, activate_proposal,
}
use helix_protocol.Governance.Vote.{
  CastVoteAccounts, CastVoteOutcome, check_cast_vote, cast_vote_handler, cast_vote,
}
use helix_protocol.Governance.Lifecycle.{finalize_proposal, queue_proposal}
use helix_protocol.Governance.Process.{Process, started, Step, Reach, here, next}
use helix_protocol.Governance.Process.Stages.{IsOrderly}
use helix_protocol.Governance.Process.Orderly.{started-IsOrderly, executed_waited}

abbrev realm₀ : Realm
realm₀ = record {
  authority = 80;
  guardian = 81;
  staking_pool = 70704;
  quorum_bps = 2_000;
  approval_bps = 6_000;
  voting_period = pos 3_600;
  timelock_delay = pos 7_200;
  min_weight_to_propose = 100;
  proposal_count = 0;
  bump = 255;
  executor_bump = 255;
}

abbrev position₀ : Position
position₀ = record {
  pool = 70704;
  owner = 40;
  position_id = 0;
  amount = 5_000;
  weighted_amount = 10_000;
  tier = gold;
  lock_end = pos 15_552_000;
  reward_per_token_paid = 0;
  pending_rewards = 0;
  created_at = pos 0;
  bump = 255;
}

abbrev pool₀ : Pool
pool₀ = record {
  authority = 41;
  pending_authority = none;
  stake_mint = 7;
  reward_mint = 7;
  stake_vault = 7070411;
  reward_vault = 7070412;
  total_staked = 5_000;
  total_weighted = 10_000;
  reward_rate = 0;
  reward_period_end = pos 0;
  reward_per_token = 0;
  last_update_ts = pos 0;
  total_rewards_funded = 0;
  total_rewards_accrued = 0;
  total_rewards_paid = 0;
  position_count = 1;
  paused = false;
  bump = 255;
  vault_authority_bump = 255;
}

abbrev creating : CreateProposalAccounts
creating = record {
  realm_key = 7070405;
  realm = realm₀;
  proposer = 40;
  proposer_position = position₀;
  owner = 40;
  proposal_key = 707040508;
  proposal_in_use = false;
}

created_ok :
    (out : CreateProposalOutcome) × (create_proposal runtime creating
        (pos 100)
        0
        ProposalAction.signal
        "Hello"
        "ipfs://x"
      ≡ ok out)
unfolding create_proposal check_create_proposal
created_ok = (_, refl)

abbrev s₀ : Process
s₀ = started created_ok.0 (pos 100)

-- The realm and the proposal as they stand in a process.
abbrev at : Process → ProposalAccounts
at s = record {
  realm_key = 7070405;
  realm = s.realm;
  proposal_key = 707040508;
  proposal = s.proposal;
}

-- Another proposal is created in the realm.
abbrev creating_another : CreateProposalAccounts
creating_another = record creating { realm = s₀.realm; proposal_key = 707050508 }

created_another_ok :
    (out : CreateProposalOutcome) × (create_proposal runtime creating_another
        (pos 150)
        1
        ProposalAction.signal
        "Again"
        "ipfs://y"
      ≡ ok out)
unfolding created_ok create_proposal check_create_proposal
created_another_ok = (_, refl)

abbrev s₀' : Process
s₀' = record s₀ { realm = created_another_ok.0.realm; clock = pos 150 }

abbrev activating : ActivateProposalAccounts
activating = record { on = at s₀'; staking_pool_key = 70704; staking_pool = pool₀ }

activated_ok :
    (out : Proposal × ProposalActivated) × (activate_proposal runtime activating (pos 200) ≡ ok out)
unfolding created_ok created_another_ok activate_proposal check_proposal require_state ◌+ℤ◌
activated_ok = (_, refl)

abbrev s₁ : Process
s₁ = record s₀' { proposal = activated_ok.0.0; clock = pos 200 }

abbrev voting₁ : CastVoteAccounts
voting₁ = record {
  on = at s₁;
  voter = 40;
  position_key = 7470408;
  position = position₀;
  vote_record_key = 145408130804;
  vote_record_in_use = false;
}

voted_ok : (out : CastVoteOutcome) × (cast_vote runtime voting₁ (pos 300) in_favour ≡ ok out)
unfolding created_ok created_another_ok activated_ok cast_vote check_cast_vote check_proposal
    cast_vote_handler require_state can_vote_until tally ◌+ℤ◌
voted_ok = (_, refl)

abbrev s₂ : Process
s₂ = record s₁ {
  proposal = voted_ok.0.proposal;
  records = voted_ok.0.vote_record ∷ [];
  clock = pos 300;
}

finalized_ok :
    (out : Proposal × ProposalFinalized) × (finalize_proposal runtime (at s₂) (pos 3_800) ≡ ok out)
unfolding created_ok created_another_ok activated_ok voted_ok finalize_proposal check_proposal
    require_state outcome quorum_reached total_votes approval_reached approval_of decisive_votes
finalized_ok = (_, refl)

abbrev s₃ : Process
s₃ = record s₂ { proposal = finalized_ok.0.0; clock = pos 3_800 }

queued_ok :
    (out : Proposal × ProposalQueued) × (queue_proposal runtime (at s₃) (pos 4_000) ≡ ok out)
unfolding created_ok created_another_ok activated_ok voted_ok finalized_ok queue_proposal
    check_proposal require_state expires_at ◌+ℤ◌
queued_ok = (_, refl)

abbrev s₄ : Process
s₄ = record s₃ { proposal = queued_ok.0.0; clock = pos 4_000 }

executed_ok : (p : Proposal) × (authorize_execution s₄.proposal (pos 12_000) ≡ ok p)
unfolding created_ok created_another_ok activated_ok voted_ok finalized_ok queued_ok
    authorize_execution require_state expires_at ◌+ℤ◌
executed_ok = (_, refl)

abbrev s₅ : Process
s₅ = record s₄ { proposal = executed_ok.0; clock = pos 12_000 }

history₅ : Reach runtime s₀ s₅
unfolding created_ok created_another_ok activated_ok voted_ok finalized_ok queued_ok executed_ok
history₅ =
    next
      (next
        (next
          (next
            (next
              (next here (
                Step.proposes creating_another (pos 150) 1 ProposalAction.signal "Again" "ipfs://y"
                  created_another_ok.0 (omega arith) refl created_another_ok.1 refl))
              (Step.activates activating (pos 200) activated_ok.0 (omega arith) refl activated_ok.1
                refl))
            (Step.votes voting₁ (pos 300) in_favour voted_ok.0 (omega arith) refl voted_ok.1 refl))
          (Step.finalizes (at s₂) (pos 3_800) finalized_ok.0 (omega arith) refl refl finalized_ok.1
            refl))
        (Step.queues (at s₃) (pos 4_000) queued_ok.0 (omega arith) refl refl queued_ok.1 refl))
      (Step.executes (pos 12_000) executed_ok.0 (omega arith) executed_ok.1 refl)

started-IsOrderly_example : IsOrderly s₅
started-IsOrderly_example =
    started-IsOrderly runtime creating (pos 100) 0 ProposalAction.signal "Hello" "ipfs://x"
      created_ok.0 s₅ (omega arith) (omega arith) created_ok.1 history₅

executed_waited_example :
    (s₅.proposal.against_votes < s₅.proposal.for_votes)
    × (s₅.proposal.voting_ends_at +ℤ min_timelock_delay ≤ℤ s₅.clock)
unfolding executed_ok
executed_waited_example =
    executed_waited runtime creating (pos 100) 0 ProposalAction.signal "Hello" "ipfs://x"
      created_ok.0 s₅ (omega arith) (omega arith) created_ok.1 history₅ refl

counted_ok : outcome s₂.proposal 2_000 6_000 ≡ ok succeeded
unfolding created_ok created_another_ok activated_ok voted_ok outcome quorum_reached total_votes
    approval_reached approval_of decisive_votes
counted_ok = refl

outcome_carries_example :
    (s₂.proposal.against_votes < s₂.proposal.for_votes)
    × (s₂.proposal.total_weight_snapshot * 2_000
        ≤ (s₂.proposal.for_votes + s₂.proposal.against_votes + s₂.proposal.abstain_votes)
          * bps_denominator)
outcome_carries_example = outcome_carries s₂.proposal 2_000 6_000 (omega arith) counted_ok

authorize_execution-Authorized_example : Authorized s₄.proposal (pos 12_000) executed_ok.0
authorize_execution-Authorized_example =
    authorize_execution-Authorized s₄.proposal (pos 12_000) executed_ok.0 executed_ok.1

-- The same process one change of the realm later.
abbrev retuned : RealmParams
retuned = record {
  quorum_bps = 3_000;
  approval_bps = 7_000;
  voting_period = pos 3_600;
  timelock_delay = pos 3_600;
  min_weight_to_propose = 50;
}

abbrev retuning : UpdateRealmParamsAccounts
retuning = record { realm_key = 7070405; realm = s₅.realm; authority = 80 }

retuned_ok :
    (out : Realm × RealmParamsUpdated) × (update_realm_params runtime retuning (pos 13_000) retuned
      ≡ ok out)
unfolding created_ok created_another_ok update_realm_params validate
retuned_ok = (_, refl)

abbrev s₆ : Process
s₆ = record s₅ { realm = retuned_ok.0.0; clock = pos 13_000 }

Reach-final_example : s₆.proposal ≡ s₅.proposal
unfolding executed_ok is_terminal
Reach-final_example =
    Reach-final runtime s₅ s₆
      (next here (
        Step.reparameterizes retuning (pos 13_000) retuned retuned_ok.0 (omega arith) refl
          retuned_ok.1 refl))
      refl

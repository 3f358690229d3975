-- ===== src/Governance/Execute/Mandate.antt =====
-- What an execution does: its proposal passes the gate, and the call that it makes has the
-- parameters of the proposal's action.
use helix_protocol.Prelude.{ℕ, Option, some, none, ◌≡◌, refl, inl, inr, arith, ◌==◌}
use helix_protocol.Prelude.Int.{ℤ}
use helix_protocol.Prelude.Fallible.{
  Result, ok, ◌>>=◌, ◌>>◌, ok_or, require, call, Result-cases, >>-eq-ok,
}
use helix_protocol.Anchor.{Pubkey, Runtime, TokenProgram}
use helix_protocol.Treasury.Types.{Treasury}
use helix_protocol.Treasury.Events.{SpendCapChanged, GovernanceExecutorChanged}
use helix_protocol.Treasury.Funds.{SpendOutcome, spend, set_spend_cap, set_governance_executor}
use helix_protocol.Treasury.Vesting.{
  CreateStreamOutcome, create_stream, RevokeStreamOutcome, revoke_stream,
}
use helix_protocol.Staking.Types.{Pool}
use helix_protocol.Staking.Events.{RewardRateChanged}
use helix_protocol.Staking.Admin.{set_reward_rate}
use helix_protocol.Governance.Types.{
  Proposal, ProposalAction, GovernanceError, action_account_mismatch,
}
use helix_protocol.Governance.State.{Fallible, authorize_execution}
use helix_protocol.Governance.Events.{ProposalExecuted}
use helix_protocol.Governance.Proposals.{ProposalAccounts}
use helix_protocol.Governance.Execute.{check_execute, executed_event}
use helix_protocol.Governance.Execute.Treasury.{
  ExecuteTreasuryTransferAccounts, spend_accounts, treasury_transfer_of, execute_treasury_transfer,
  ExecuteCreateVestingStreamAccounts, create_stream_accounts, StreamTerms, create_vesting_stream_of,
  execute_create_vesting_stream, ExecuteRevokeVestingStreamAccounts, revoke_stream_accounts,
  revoke_vesting_stream_of, execute_revoke_vesting_stream, ExecuteTreasuryConfigAccounts,
  cpi_accounts, set_treasury_spend_cap_of, execute_set_treasury_spend_cap,
  set_governance_executor_of, execute_set_governance_executor,
}
use helix_protocol.Governance.Execute.Staking.{
  ExecuteSetStakingRewardRateAccounts, check_execute_set_staking_reward_rate,
  set_reward_rate_accounts, set_staking_reward_rate_of, execute_set_staking_reward_rate,
}

-- The action of a proposal, and what its execution calls: the gate is passed, and the call `m`
-- succeeds with the outcome `r`.
pub record Mandated {ℓ κ} {F : Type ℓ} {A : Type κ} (p : Proposal) (now : ℤ)
    (action : ProposalAction) (m : Result F A) (q : Proposal) (r : A) : Type (ℓ ⊔ κ) where
  pub named : p.action ≡ action
  pub passed : authorize_execution p now ≡ ok q
  pub called : m ≡ ok r

-- The part that the instructions share: the gate, the call, the event.
pub gate_and_call {ℓ κ} :
    {F : Type ℓ} {A : Type κ} (on : ProposalAccounts) (p : Proposal) (now : ℤ) (m : Result F A)
    {out : Proposal × A × ProposalExecuted}
    → (authorize_execution p now >>= λ q.
        call {E = GovernanceError} m >>= λ r. ok (q, r, executed_event on q now))
      ≡ ok out
    → (authorize_execution p now ≡ ok out.0) × (m ≡ ok out.1)
gate_and_call on p now m {out} h = elim (Result-cases (authorize_execution p now)) [
  | inl (f, e) ↦ ground arith
  | inr (q, e) ↦ elim (Result-cases m) [
    | inl (f, e') ↦ ground arith
    | inr (r, e') ↦ (ground arith, ground arith)
  ]
]

-- An instruction that checks its accounts and matches the action: both succeeded.
pub matched {ℓ κ} :
    {A : Type ℓ} {B : Type κ} (checked : Fallible (Unit {0})) (o : Option A) (e : GovernanceError)
    (rest : A → Fallible B) {out : B}
    → (checked >> (ok_or o e >>= rest)) ≡ ok out
    → (x : A) × (o ≡ some x) × (rest x ≡ ok out)
matched checked (some x) e rest h = (x, refl, (>>-eq-ok checked _ h).1)
matched checked none e rest h = let k = (>>-eq-ok checked _ h).1 in cc

treasury_transfer_of-eq :
    (x : ProposalAction) {d : Pubkey} {n : ℕ}
    → treasury_transfer_of x ≡ some (d, n)
    → x ≡ ProposalAction.treasury_transfer d n
unfolding treasury_transfer_of
treasury_transfer_of-eq (ProposalAction.treasury_transfer d n) h = ground arith
treasury_transfer_of-eq _ h = cc

-- A successful `execute_treasury_transfer` is of a proposal whose action is a transfer, of some
-- amount, to the destination that was presented; the proposal passes the gate, and the treasury's
-- `spend` of that amount succeeds with the outcome of the execution.
pub execute_treasury_transfer-Mandated :
    (R : Runtime) (T : TokenProgram) (a : ExecuteTreasuryTransferAccounts) (now : ℤ)
    (out : Proposal × SpendOutcome × ProposalExecuted)
    → execute_treasury_transfer R T a now ≡ ok out
    → (amount : ℕ) × Mandated a.base.on.proposal now
        (ProposalAction.treasury_transfer a.destination.key amount)
        (spend R T (spend_accounts a) now amount)
        out.0
        out.1
unfolding execute_treasury_transfer
execute_treasury_transfer-Mandated R T a now out h =
    let p = a.base.on.proposal in
    let (x, e, k) =
      matched (check_execute R a.base) (treasury_transfer_of p.action) action_account_mismatch _
        h in
    let (same, k') = >>-eq-ok (require (a.destination.key == x.0) action_account_mismatch) _ k in
    let (passed, called) =
      gate_and_call a.base.on p now (spend R T (spend_accounts a) now x.1) k' in
    (
      x.1,
      record {
        named = treasury_transfer_of-eq p.action (ground (arith, e, same));
        passed = passed;
        called = called;
      },
    )

create_vesting_stream_of-eq :
    (x : ProposalAction) {t : StreamTerms}
    → create_vesting_stream_of x ≡ some t
    → x
      ≡ ProposalAction.create_vesting_stream t.beneficiary t.total_amount t.start_ts t.cliff_ts
          t.end_ts
unfolding create_vesting_stream_of
create_vesting_stream_of-eq (ProposalAction.create_vesting_stream b n s c e) h = ground arith
create_vesting_stream_of-eq _ h = cc

pub execute_create_vesting_stream-Mandated :
    (R : Runtime) (a : ExecuteCreateVestingStreamAccounts) (now : ℤ) (stream_id : ℕ)
    (out : Proposal × CreateStreamOutcome × ProposalExecuted)
    → execute_create_vesting_stream R a now stream_id ≡ ok out
    → (t : StreamTerms) × (t.beneficiary ≡ a.beneficiary)
      × Mandated a.base.on.proposal now
          (ProposalAction.create_vesting_stream t.beneficiary t.total_amount t.start_ts t.cliff_ts
            t.end_ts)
          (create_stream R
            (create_stream_accounts a)
            now
            stream_id
            t.total_amount
            t.start_ts
            t.cliff_ts
            t.end_ts)
          out.0
          out.1
unfolding execute_create_vesting_stream
execute_create_vesting_stream-Mandated R a now stream_id out h =
    let p = a.base.on.proposal in
    let (t, e, k) =
      matched (check_execute R a.base) (create_vesting_stream_of p.action) action_account_mismatch _
        h in
    let (same, k') =
      >>-eq-ok (require (a.beneficiary == t.beneficiary) action_account_mismatch) _ k in
    let (passed, called) = gate_and_call a.base.on p now _ k' in
    (
      t,
      ground arith,
      record { named = create_vesting_stream_of-eq p.action e; passed = passed; called = called },
    )

revoke_vesting_stream_of-eq :
    (x : ProposalAction) {n : ℕ}
    → revoke_vesting_stream_of x ≡ some n
    → x ≡ ProposalAction.revoke_vesting_stream n
unfolding revoke_vesting_stream_of
revoke_vesting_stream_of-eq (ProposalAction.revoke_vesting_stream n) h = ground arith
revoke_vesting_stream_of-eq _ h = cc

pub execute_revoke_vesting_stream-Mandated :
    (R : Runtime) (a : ExecuteRevokeVestingStreamAccounts) (now : ℤ)
    (out : Proposal × RevokeStreamOutcome × ProposalExecuted)
    → execute_revoke_vesting_stream R a now ≡ ok out
    → Mandated a.base.on.proposal now
        (ProposalAction.revoke_vesting_stream a.stream.stream_id)
        (revoke_stream R (revoke_stream_accounts a) now)
        out.0
        out.1
unfolding execute_revoke_vesting_stream
execute_revoke_vesting_stream-Mandated R a now out h =
    let p = a.base.on.proposal in
    let (n, e, k) =
      matched (check_execute R a.base) (revoke_vesting_stream_of p.action) action_account_mismatch _
        h in
    let (same, k') = >>-eq-ok (require (a.stream.stream_id == n) action_account_mismatch) _ k in
    let (passed, called) = gate_and_call a.base.on p now _ k' in
    record {
      named = revoke_vesting_stream_of-eq p.action (ground (arith, e, same));
      passed = passed;
      called = called;
    }

set_treasury_spend_cap_of-eq :
    (x : ProposalAction) {n : ℕ} {d : ℤ}
    → set_treasury_spend_cap_of x ≡ some (n, d)
    → x ≡ ProposalAction.set_treasury_spend_cap n d
unfolding set_treasury_spend_cap_of
set_treasury_spend_cap_of-eq (ProposalAction.set_treasury_spend_cap n d) h = ground arith
set_treasury_spend_cap_of-eq _ h = cc

pub execute_set_treasury_spend_cap-Mandated :
    (R : Runtime) (a : ExecuteTreasuryConfigAccounts) (now : ℤ)
    (out : Proposal × (Treasury × SpendCapChanged) × ProposalExecuted)
    → execute_set_treasury_spend_cap R a now ≡ ok out
    → (cap : ℕ) × (duration : ℤ) × Mandated a.base.on.proposal now
        (ProposalAction.set_treasury_spend_cap cap duration)
        (set_spend_cap R (cpi_accounts a) now cap duration)
        out.0
        out.1
unfolding execute_set_treasury_spend_cap
execute_set_treasury_spend_cap-Mandated R a now out h =
    let p = a.base.on.proposal in
    let (x, e, k) =
      matched (check_execute R a.base) (set_treasury_spend_cap_of p.action) action_account_mismatch
        _ h in
    let (passed, called) = gate_and_call a.base.on p now _ k in
    (
      x.0,
      x.1,
      record { named = set_treasury_spend_cap_of-eq p.action e; passed = passed; called = called },
    )

set_governance_executor_of-eq :
    (x : ProposalAction) {k : Pubkey}
    → set_governance_executor_of x ≡ some k
    → x ≡ ProposalAction.set_governance_executor k
unfolding set_governance_executor_of
set_governance_executor_of-eq (ProposalAction.set_governance_executor k) h = ground arith
set_governance_executor_of-eq _ h = cc

pub execute_set_governance_executor-Mandated :
    (R : Runtime) (a : ExecuteTreasuryConfigAccounts) (now : ℤ)
    (out : Proposal × (Treasury × GovernanceExecutorChanged) × ProposalExecuted)
    → execute_set_governance_executor R a now ≡ ok out
    → (new : Pubkey) × Mandated a.base.on.proposal now
        (ProposalAction.set_governance_executor new)
        (set_governance_executor R (cpi_accounts a) now new)
        out.0
        out.1
unfolding execute_set_governance_executor
execute_set_governance_executor-Mandated R a now out h =
    let p = a.base.on.proposal in
    let (x, e, k) =
      matched (check_execute R a.base) (set_governance_executor_of p.action) action_account_mismatch
        _ h in
    let (passed, called) = gate_and_call a.base.on p now _ k in
    (
      x,
      record { named = set_governance_executor_of-eq p.action e; passed = passed; called = called },
    )

set_staking_reward_rate_of-eq :
    (x : ProposalAction) {n : ℕ} {d : ℤ}
    → set_staking_reward_rate_of x ≡ some (n, d)
    → x ≡ ProposalAction.set_staking_reward_rate n d
unfolding set_staking_reward_rate_of
set_staking_reward_rate_of-eq (ProposalAction.set_staking_reward_rate n d) h = ground arith
set_staking_reward_rate_of-eq _ h = cc

pub execute_set_staking_reward_rate-Mandated :
    (R : Runtime) (a : ExecuteSetStakingRewardRateAccounts) (now : ℤ)
    (out : Proposal × (Pool × RewardRateChanged) × ProposalExecuted)
    → execute_set_staking_reward_rate R a now ≡ ok out
    → (rate : ℕ) × (period_end : ℤ) × Mandated a.base.on.proposal now
        (ProposalAction.set_staking_reward_rate rate period_end)
        (set_reward_rate R (set_reward_rate_accounts a) now rate period_end)
        out.0
        out.1
unfolding execute_set_staking_reward_rate
execute_set_staking_reward_rate-Mandated R a now out h =
    let p = a.base.on.proposal in
    let (x, e, k) =
      matched (check_execute_set_staking_reward_rate R a) (set_staking_reward_rate_of p.action)
        action_account_mismatch _ h in
    let (passed, called) = gate_and_call a.base.on p now _ k in
    (
      x.0,
      x.1,
      record { named = set_staking_reward_rate_of-eq p.action e; passed = passed; called = called },
    )

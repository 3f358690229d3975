-- ===== src/Dao/Approved.antt =====
-- What the executed proposals have approved, against what the treasury has spent.
use helix_protocol.Prelude.{
  ℕ, ◌+◌, ◌≤◌, ◌≡◌, refl, ap, inl, inr, String, List, some, false, arith, Bool-cases,
}
use helix_protocol.Prelude.Lists.{sum_by, get_elem?, set, sum_by-set}
use helix_protocol.Prelude.Int.{ℤ}
use helix_protocol.Prelude.Fallible.{ok, >>-eq-ok}
use helix_protocol.Anchor.{Runtime, TokenProgram}
use helix_protocol.Treasury.Types.{Treasury}
use helix_protocol.Treasury.Events.{SpendCapChanged}
use helix_protocol.Treasury.Funds.{
  InitializeTreasuryAccounts, InitializeTreasuryOutcome, initialize_treasury, SpendAccounts,
  SpendOutcome, check_spend, spend, GovernanceOnly, set_spend_cap,
}
use helix_protocol.Treasury.Vesting.{
  ClaimStreamAccounts, ClaimStreamOutcome, check_claim_stream, claim_stream, RevokeStreamAccounts,
  RevokeStreamOutcome, check_revoke_stream, revoke_stream,
}
use helix_protocol.Treasury.Effects.{
  deposit-Deposits, spend_handler-Spends, create_stream-Created, claim_stream_handler-Claims,
  revoke_stream_handler-Revokes,
}
use helix_protocol.Governance.Types.{Proposal, ProposalAction, ProposalState, draft}
use helix_protocol.Governance.State.{is_terminal, authorize_execution}
use helix_protocol.Governance.State.Outcome.{authorize_execution-Authorized}
use helix_protocol.Governance.Proposals.{
  CreateProposalAccounts, CreateProposalOutcome, create_proposal,
}
use helix_protocol.Governance.Process
use helix_protocol.Governance.Process.Final.{Reach-final}
use helix_protocol.Governance.Execute.Treasury.{spend_accounts}
use helix_protocol.Governance.Execute.Mandate.{
  execute_treasury_transfer-Mandated, execute_create_vesting_stream-Mandated,
  execute_revoke_vesting_stream-Mandated, execute_set_treasury_spend_cap-Mandated,
}
use helix_protocol.Dao.{Dao, founded, Step, Reach, here, next}

-- What an action pays from the treasury at its execution.
abbrev pub granted : ProposalAction → ℕ
granted (ProposalAction.treasury_transfer destination amount) = amount
granted _ = 0

abbrev pub if_executed : ProposalState → ℕ → ℕ
if_executed ProposalState.executed n = n
if_executed _ n = 0

-- What a proposal has approved: the amount of its transfer, once it is executed.
abbrev pub approved : Proposal → ℕ
approved p = if_executed p.state (granted p.action)

open_approves : (u : ProposalState) (n : ℕ) → is_terminal u ≡ false → if_executed u n ≡ 0
unfolding is_terminal
open_approves ProposalState.executed n h = cc
open_approves _ n h = refl

module _ (R : Runtime) where
  -- A step of a proposal's process takes no approval back.
  proceeds_mono :
      (x y : Process.Process) → Process.Step R x y → approved x.proposal ≤ approved y.proposal
  proceeds_mono x y st = elim (Bool-cases (is_terminal x.proposal.state)) [
    | inl e ↦
        let same = Reach-final R x y (Process.Reach.next Process.Reach.here st) e in
        rw same (omega arith)
    | inr e ↦ omega (arith, open_approves x.proposal.state (granted x.proposal.action) e)
  ]

  -- An execution turns what it grants into what is approved.
  executed-approved :
      (p : Proposal) (now : ℤ) (q : Proposal)
      → authorize_execution p now ≡ ok q
      → (approved p ≡ 0) × (approved q ≡ granted p.action)
  executed-approved p now q h =
      let k = authorize_execution-Authorized p now q h in (rw k.was_queued refl, rw k.frame refl)

  -- An execution of a proposal in the list, whose action grants what the treasury spends.
  settle-within :
      (s : Dao) (i : ℕ) (p : Proposal) (now : ℤ) (q : Proposal) (t : Treasury)
      → get_elem? s.proposals i ≡ some p
      → authorize_execution p now ≡ ok q
      → t.total_spent ≡ s.treasury.total_spent + granted p.action
      → s.treasury.total_spent ≤ sum_by approved s.proposals
      → t.total_spent ≤ sum_by approved (set s.proposals i q)
  settle-within s i p now q t at passed spent le =
      let (closed, grants) = executed-approved p now q passed in
      omega (arith, le, spent, closed, grants, sum_by-set approved s.proposals i p q at)

create_proposal-approved :
    (R : Runtime) (a : CreateProposalAccounts) (now : ℤ) (id : ℕ) (action : ProposalAction)
    (title uri : String) (out : CreateProposalOutcome)
    → create_proposal R a now id action title uri ≡ ok out
    → out.proposal.state ≡ draft
unfolding create_proposal
create_proposal-approved R a now id action title uri out h = ground arith

module _ (R : Runtime) (T : TokenProgram) where
  claim_stream-spends_nothing :
      (a : ClaimStreamAccounts) (now : ℤ) (out : ClaimStreamOutcome)
      → claim_stream R T a now ≡ ok out
      → out.treasury.total_spent ≡ a.treasury.total_spent
  unfolding claim_stream
  claim_stream-spends_nothing a now out h =
      let k = claim_stream_handler-Claims T a now out (>>-eq-ok (check_claim_stream R a) _ h).1 in
      ap (λ (t : Treasury). t.total_spent) k.treasury

  revoke_stream-spends_nothing :
      (a : RevokeStreamAccounts) (now : ℤ) (out : RevokeStreamOutcome)
      → revoke_stream R a now ≡ ok out
      → out.treasury.total_spent ≡ a.treasury.total_spent
  unfolding revoke_stream
  revoke_stream-spends_nothing a now out h =
      let k = revoke_stream_handler-Revokes a now out (>>-eq-ok (check_revoke_stream R a) _ h).1 in
      ap (λ (t : Treasury). t.total_spent) k.treasury

  set_spend_cap-spends_nothing :
      (a : GovernanceOnly) (now : ℤ) (c : ℕ) (d : ℤ) (out : Treasury × SpendCapChanged)
      → set_spend_cap R a now c d ≡ ok out
      → out.0.total_spent ≡ a.treasury.total_spent
  unfolding set_spend_cap
  set_spend_cap-spends_nothing a now c d out h = ground arith

  spend-spends :
      (a : SpendAccounts) (now : ℤ) (amount : ℕ) (out : SpendOutcome)
      → spend R T a now amount ≡ ok out
      → out.treasury.total_spent ≡ a.treasury.total_spent + amount
  unfolding spend
  spend-spends a now amount out h =
      let k = spend_handler-Spends T a now amount out (>>-eq-ok (check_spend R a) _ h).1 in
      let total : out.treasury.total_spent ≡ k.charged.total_spent + amount =
        ap (λ (t : Treasury). t.total_spent) k.treasury in
      let kept : k.charged.total_spent ≡ a.treasury.total_spent =
        ap (λ (t : Treasury). t.total_spent) k.charge.frame in
      rw (total, kept) refl

  Step-within :
      (s t : Dao)
      → Step R T s t
      → s.treasury.total_spent ≤ sum_by approved s.proposals
      → t.treasury.total_spent ≤ sum_by approved t.proposals
  Step-within s t (Step.deposits a now amount out et h e) le =
      let k : out.treasury.total_spent ≡ a.treasury.total_spent =
        ap (λ (u : Treasury). u.total_spent) (deposit-Deposits R T a now amount out h).treasury in
      rw e (rw (k, et) le)
  Step-within s t (Step.claims a now out et h e) le =
      rw e (rw (claim_stream-spends_nothing a now out h, et) le)
  Step-within s t (Step.proposes a now id action title uri out h e) le =
      let k = create_proposal-approved R a now id action title uri out h in
      rw (e, k) (omega (arith, le))
  Step-within s t (Step.proceeds i x y at st e) le =
      rw e (
        omega
          (arith, le, proceeds_mono R x y st, sum_by-set approved s.proposals i _ y.proposal at))
  Step-within s t (Step.transfers i a now out at et h e) le =
      let (n, m) = execute_treasury_transfer-Mandated R T a now out h in
      rw e (
        settle-within R s i _ now out.0 out.1.treasury at m.passed
          (rw (spend-spends (spend_accounts a) now n out.1 m.called, et, m.named) refl) le)
  Step-within s t (Step.creates i a now id out at et h e) le =
      let (terms, same, m) = execute_create_vesting_stream-Mandated R a now id out h in
      let k = create_stream-Created R _ now id _ _ _ _ out.1 m.called in
      rw e (
        settle-within R s i _ now out.0 out.1.treasury at m.passed
          (rw (ap (λ (u : Treasury). u.total_spent) k.treasury, et, m.named) (omega arith)) le)
  Step-within s t (Step.revokes i a now out at et h e) le =
      let m = execute_revoke_vesting_stream-Mandated R a now out h in
      rw e (
        settle-within R s i _ now out.0 out.1.treasury at m.passed
          (rw (revoke_stream-spends_nothing _ now out.1 m.called, et, m.named) (omega arith)) le)
  Step-within s t (Step.recaps i a now out at et h e) le =
      let (c, d, m) = execute_set_treasury_spend_cap-Mandated R a now out h in
      rw e (
        settle-within R s i _ now out.0 out.1.0 at m.passed
          (rw (set_spend_cap-spends_nothing _ now c d out.1 m.called, et, m.named) (omega arith))
          le)

  Reach-within :
      (s t : Dao)
      → Reach R T s t
      → s.treasury.total_spent ≤ sum_by approved s.proposals
      → t.treasury.total_spent ≤ sum_by approved t.proposals
  Reach-within s t here le = le
  Reach-within s t (next {t = m} r st) le = Step-within m t st (Reach-within s m r le)

initialize_treasury-unspent :
    (R : Runtime) (a : InitializeTreasuryAccounts) (now : ℤ) (c : ℕ) (d : ℤ)
    (out : InitializeTreasuryOutcome)
    → initialize_treasury R a now c d ≡ ok out
    → out.treasury.total_spent ≡ 0
unfolding initialize_treasury
initialize_treasury-unspent R a now c d out h = ground arith

-- Whatever proposals there are when a treasury is created, and whatever sequence of deposits,
-- claims, steps of proposals and executions on that treasury follows, its executor not changed:
-- what the treasury has spent is at most the sum of the amounts of the executed treasury
-- transfers.
pub spent_is_approved :
    (R : Runtime) (T : TokenProgram) (a : InitializeTreasuryAccounts) (now : ℤ) (c : ℕ) (d : ℤ)
    (out : InitializeTreasuryOutcome) (ps : List Proposal) (t : Dao)
    → initialize_treasury R a now c d ≡ ok out
    → Reach R T (founded out ps) t
    → t.treasury.total_spent ≤ sum_by approved t.proposals
spent_is_approved R T a now c d out ps t h r =
    Reach-within R T (founded out ps) t r
      (omega (arith, initialize_treasury-unspent R a now c d out h))

-- ===== src/Governance/Execute/TokenMandate.antt =====
-- What an execution on the token manager does: its proposal passes the gate, and the call that it
-- makes has the parameters of the proposal's action.
use helix_protocol.Prelude.{ℕ, Bool, true, some, ◌≡◌, refl, arith}
use helix_protocol.Prelude.Int.{ℤ}
use helix_protocol.Prelude.Fallible.{ok, require, >>-eq-ok}
use helix_protocol.Anchor.{Pubkey, Runtime}
use helix_protocol.TokenManager.Types.{TokenConfig, Minter}
use helix_protocol.TokenManager.Events.{
  MinterRegistered, MinterUpdated, MinterRevoked, AdminTransferProposed, AdminTransferAccepted,
  PauseToggled,
}
use helix_protocol.TokenManager.Registry.{
  register_minter, update_minter, revoke_minter, propose_admin, accept_admin, set_paused,
}
use helix_protocol.Governance.Types.{Proposal, ProposalAction, action_account_mismatch}
use helix_protocol.Governance.Events.{ProposalExecuted}
use helix_protocol.Governance.Execute.{check_execute}
use helix_protocol.Governance.Execute.Mandate.{Mandated, gate_and_call, matched}
use helix_protocol.Governance.Execute.Token.{
  ExecuteTokenAdminAccounts, admin_only, is_accept_token_manager_admin,
  execute_accept_token_manager_admin, set_token_paused_of, execute_set_token_paused,
  propose_token_admin_of, execute_propose_token_admin, ExecuteRegisterMinterAccounts,
  register_minter_accounts, register_minter_of, execute_register_minter,
  ExecuteModifyMinterAccounts, minter_accounts, update_minter_of, execute_update_minter,
  is_revoke_minter, execute_revoke_minter,
}

is_accept_token_manager_admin-eq :
    (y : ProposalAction)
    → is_accept_token_manager_admin y ≡ true
    → y ≡ ProposalAction.accept_token_manager_admin
unfolding is_accept_token_manager_admin
is_accept_token_manager_admin-eq ProposalAction.accept_token_manager_admin h = refl
is_accept_token_manager_admin-eq _ h = cc

pub execute_accept_token_manager_admin-Mandated :
    (R : Runtime) (a : ExecuteTokenAdminAccounts) (now : ℤ)
    (out : Proposal × (TokenConfig × AdminTransferAccepted) × ProposalExecuted)
    → execute_accept_token_manager_admin R a now ≡ ok out
    → Mandated a.base.on.proposal now ProposalAction.accept_token_manager_admin
        (accept_admin R (admin_only a) now)
        out.0
        out.1
unfolding execute_accept_token_manager_admin
execute_accept_token_manager_admin-Mandated R a now out h =
    let p = a.base.on.proposal in
    let k = (>>-eq-ok (check_execute R a.base) _ h).1 in
    let k' =
      (>>-eq-ok (require (is_accept_token_manager_admin p.action) action_account_mismatch) _ k).1 in
    let (passed, called) = gate_and_call a.base.on p now _ k' in
    record {
      named = is_accept_token_manager_admin-eq p.action (ground arith);
      passed = passed;
      called = called;
    }

set_token_paused_of-eq :
    (y : ProposalAction) {paused : Bool}
    → set_token_paused_of y ≡ some paused
    → y ≡ ProposalAction.set_token_paused paused
unfolding set_token_paused_of
set_token_paused_of-eq (ProposalAction.set_token_paused paused) h = ground arith
set_token_paused_of-eq _ h = cc

pub execute_set_token_paused-Mandated :
    (R : Runtime) (a : ExecuteTokenAdminAccounts) (now : ℤ)
    (out : Proposal × (TokenConfig × PauseToggled) × ProposalExecuted)
    → execute_set_token_paused R a now ≡ ok out
    → (paused : Bool) × Mandated a.base.on.proposal now
        (ProposalAction.set_token_paused paused)
        (set_paused R (admin_only a) now paused)
        out.0
        out.1
unfolding execute_set_token_paused
execute_set_token_paused-Mandated R a now out h =
    let p = a.base.on.proposal in
    let (x, e, k) =
      matched (check_execute R a.base) (set_token_paused_of p.action) action_account_mismatch _ h in
    let (passed, called) = gate_and_call a.base.on p now _ k in
    (x, record { named = set_token_paused_of-eq p.action e; passed = passed; called = called })

propose_token_admin_of-eq :
    (y : ProposalAction) {new : Pubkey}
    → propose_token_admin_of y ≡ some new
    → y ≡ ProposalAction.propose_token_admin new
unfolding propose_token_admin_of
propose_token_admin_of-eq (ProposalAction.propose_token_admin new) h = ground arith
propose_token_admin_of-eq _ h = cc

pub execute_propose_token_admin-Mandated :
    (R : Runtime) (a : ExecuteTokenAdminAccounts) (now : ℤ)
    (out : Proposal × (TokenConfig × AdminTransferProposed) × ProposalExecuted)
    → execute_propose_token_admin R a now ≡ ok out
    → (new : Pubkey) × Mandated a.base.on.proposal now
        (ProposalAction.propose_token_admin new)
        (propose_admin R (admin_only a) now new)
        out.0
        out.1
unfolding execute_propose_token_admin
execute_propose_token_admin-Mandated R a now out h =
    let p = a.base.on.proposal in
    let (x, e, k) =
      matched (check_execute R a.base) (propose_token_admin_of p.action) action_account_mismatch _
        h in
    let (passed, called) = gate_and_call a.base.on p now _ k in
    (x, record { named = propose_token_admin_of-eq p.action e; passed = passed; called = called })

register_minter_of-eq :
    (y : ProposalAction) {authority : Pubkey} {epoch_cap : ℕ} {duration : ℤ}
    → register_minter_of y ≡ some (authority, epoch_cap, duration)
    → y ≡ ProposalAction.register_minter authority epoch_cap duration
unfolding register_minter_of
register_minter_of-eq (ProposalAction.register_minter authority epoch_cap duration) h = ground arith
register_minter_of-eq _ h = cc

pub execute_register_minter-Mandated :
    (R : Runtime) (a : ExecuteRegisterMinterAccounts) (now : ℤ)
    (out : Proposal × (TokenConfig × Minter × MinterRegistered) × ProposalExecuted)
    → execute_register_minter R a now ≡ ok out
    → (authority : Pubkey) × (epoch_cap : ℕ) × (duration : ℤ) × Mandated a.admin.base.on.proposal
        now
        (ProposalAction.register_minter authority epoch_cap duration)
        (register_minter R (register_minter_accounts a) now authority epoch_cap duration)
        out.0
        out.1
unfolding execute_register_minter
execute_register_minter-Mandated R a now out h =
    let p = a.admin.base.on.proposal in
    let (x, e, k) =
      matched (check_execute R a.admin.base) (register_minter_of p.action) action_account_mismatch _
        h in
    let (passed, called) = gate_and_call a.admin.base.on p now _ k in
    (
      x.0,
      x.1,
      x.2,
      record { named = register_minter_of-eq p.action e; passed = passed; called = called },
    )

update_minter_of-eq :
    (y : ProposalAction) {epoch_cap : ℕ} {enabled : Bool}
    → update_minter_of y ≡ some (epoch_cap, enabled)
    → y ≡ ProposalAction.update_minter epoch_cap enabled
unfolding update_minter_of
update_minter_of-eq (ProposalAction.update_minter epoch_cap enabled) h = ground arith
update_minter_of-eq _ h = cc

pub execute_update_minter-Mandated :
    (R : Runtime) (a : ExecuteModifyMinterAccounts) (now : ℤ)
    (out : Proposal × (Minter × MinterUpdated) × ProposalExecuted)
    → execute_update_minter R a now ≡ ok out
    → (epoch_cap : ℕ) × (enabled : Bool) × Mandated a.admin.base.on.proposal now
        (ProposalAction.update_minter epoch_cap enabled)
        (update_minter R (minter_accounts a) now epoch_cap enabled)
        out.0
        out.1
unfolding execute_update_minter
execute_update_minter-Mandated R a now out h =
    let p = a.admin.base.on.proposal in
    let (x, e, k) =
      matched (check_execute R a.admin.base) (update_minter_of p.action) action_account_mismatch _
        h in
    let (passed, called) = gate_and_call a.admin.base.on p now _ k in
    (x.0, x.1, record { named = update_minter_of-eq p.action e; passed = passed; called = called })

is_revoke_minter-eq :
    (y : ProposalAction) → is_revoke_minter y ≡ true → y ≡ ProposalAction.revoke_minter
unfolding is_revoke_minter
is_revoke_minter-eq ProposalAction.revoke_minter h = refl
is_revoke_minter-eq _ h = cc

pub execute_revoke_minter-Mandated :
    (R : Runtime) (a : ExecuteModifyMinterAccounts) (now : ℤ)
    (out : Proposal × (TokenConfig × Minter × MinterRevoked) × ProposalExecuted)
    → execute_revoke_minter R a now ≡ ok out
    → Mandated a.admin.base.on.proposal now ProposalAction.revoke_minter
        (revoke_minter R (minter_accounts a) now)
        out.0
        out.1
unfolding execute_revoke_minter
execute_revoke_minter-Mandated R a now out h =
    let p = a.admin.base.on.proposal in
    let k = (>>-eq-ok (check_execute R a.admin.base) _ h).1 in
    let k' = (>>-eq-ok (require (is_revoke_minter p.action) action_account_mismatch) _ k).1 in
    let (passed, called) = gate_and_call a.admin.base.on p now _ k' in
    record { named = is_revoke_minter-eq p.action (ground arith); passed = passed; called = called }

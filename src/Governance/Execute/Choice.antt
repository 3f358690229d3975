-- ===== src/Governance/Execute/Choice.antt =====
-- Who chooses the minter of a proposal to revoke one: `execute_revoke_minter` of
-- programs/governance/src/instructions/execute_token.rs.
use helix_protocol.Prelude.{◌≡◌, arith}
use helix_protocol.Prelude.Int.{ℤ}
use helix_protocol.Prelude.Fallible.{ok, require, >>-eq-ok}
use helix_protocol.Anchor.{Pubkey, Runtime}
use helix_protocol.TokenManager.Types.{TokenConfig, Minter}
use helix_protocol.TokenManager.Events.{MinterRevoked}
use helix_protocol.TokenManager.Registry.{revoke_minter}
use helix_protocol.Governance.Types.{Proposal, action_account_mismatch}
use helix_protocol.Governance.Events.{ProposalExecuted}
use helix_protocol.Governance.Execute.{check_execute, executed_event}
use helix_protocol.Governance.Execute.TokenMandate.{execute_revoke_minter-Mandated}
use helix_protocol.Governance.Execute.Token.{
  ExecuteModifyMinterAccounts, minter_accounts, is_revoke_minter, execute_revoke_minter,
}

-- The same accounts with another minter.
abbrev pub with_minter : ExecuteModifyMinterAccounts → Pubkey → Minter → ExecuteModifyMinterAccounts
with_minter a k m = record a { minter_key = k; minter = m }

-- If a proposal to revoke a minter can be executed with one minter's account, then it can be
-- executed with any other that the token manager would revoke for the realm's executor: the
-- proposal does not say which.
pub execute_revoke_minter_any :
    (R : Runtime) (a : ExecuteModifyMinterAccounts) (now : ℤ) (k : Pubkey) (m : Minter)
    (out : Proposal × (TokenConfig × Minter × MinterRevoked) × ProposalExecuted)
    (other : TokenConfig × Minter × MinterRevoked)
    → execute_revoke_minter R a now ≡ ok out
    → revoke_minter R (minter_accounts (with_minter a k m)) now ≡ ok other
    → execute_revoke_minter R (with_minter a k m) now
      ≡ ok (out.0, other, executed_event a.admin.base.on out.0 now)
unfolding execute_revoke_minter
execute_revoke_minter_any R a now k m out other h called =
    let p = a.admin.base.on.proposal in
    let (checked, rest) = >>-eq-ok (check_execute R a.admin.base) _ h in
    let (named, _) =
      >>-eq-ok (require (is_revoke_minter p.action) action_account_mismatch) _ rest in
    let passed = (execute_revoke_minter-Mandated R a now out h).passed in
    ground (arith, checked, named, passed, called)

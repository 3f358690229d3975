-- ===== src/TokenManager/Supply/Handover.antt =====
-- The admin, the pause and the revocation of a minter: instructions/admin.rs and
-- minter_registry.rs of programs/token-manager.
use helix_protocol.Prelude.Machine.{saturating_sub}
use helix_protocol.Prelude.{◌-◌, true, ◌≡◌, ◌⊎◌, none, some, inl, inr, arith, refl}
use helix_protocol.Prelude.Int.{ℤ}
use helix_protocol.Prelude.Fallible.{ok}
use helix_protocol.Anchor.{Runtime, TokenProgram}
use helix_protocol.TokenManager.Types.{TokenConfig, Minter}
use helix_protocol.TokenManager.Events.{MinterRevoked}
use helix_protocol.TokenManager.State.{epoch_at}
use helix_protocol.TokenManager.Registry.{
  check_admin, check_minter, MinterAccounts, register_minter, update_minter, revoke_minter,
  propose_admin, cancel_admin_transfer, accept_admin, set_paused,
}
use helix_protocol.TokenManager.Issuance.{mint_to_handler, mint_to, burn}
use helix_protocol.TokenManager.Supply.{System, Step}

module _ (R : Runtime) (T : TokenProgram) (s t : System) where
  -- Whatever the transaction, the admin afterwards is the admin before it, or the one that the
  -- pending proposal named; then no proposal is left pending.
  pub Step-admin :
      Step R T s t
      → (t.config.admin ≡ s.config.admin)
        ⊎ ((s.config.pending_admin ≡ some t.config.admin) × (t.config.pending_admin ≡ none))
  unfolding mint_to mint_to_handler burn register_minter update_minter revoke_minter propose_admin
      cancel_admin_transfer accept_admin set_paused epoch_at
  Step-admin (Step.registers a now authority epoch_cap epoch out ec h e) = inl (ground arith)
  Step-admin (Step.updates a i now epoch_cap enabled out ec at h e) = inl (ground arith)
  Step-admin (Step.revokes a i now out ec at h e) = inl (ground arith)
  Step-admin (Step.mints a i now amount out ec at h e) = inl (ground arith)
  Step-admin (Step.burns a now amount out ec h e) = inl (ground arith)
  Step-admin (Step.proposes a now new_admin out ec h e) = inl (ground arith)
  Step-admin (Step.cancels a now out ec h e) = inl (ground arith)
  Step-admin (Step.accepts a now out ec h e) = inr (ground arith, ground arith)
  Step-admin (Step.pauses a now paused out ec h e) = inl (ground arith)

  -- While the configuration is paused, no transaction changes the minted total.
  pub Step-paused :
      Step R T s t → s.config.paused ≡ true → t.config.total_minted ≡ s.config.total_minted
  unfolding mint_to mint_to_handler burn register_minter update_minter revoke_minter propose_admin
      cancel_admin_transfer accept_admin set_paused epoch_at
  Step-paused (Step.registers a now authority epoch_cap epoch out ec h e) p = ground arith
  Step-paused (Step.updates a i now epoch_cap enabled out ec at h e) p = ground arith
  Step-paused (Step.revokes a i now out ec at h e) p = ground arith
  Step-paused (Step.mints a i now amount out ec at h e) p = ground arith
  Step-paused (Step.burns a now amount out ec h e) p = ground arith
  Step-paused (Step.proposes a now new_admin out ec h e) p = ground arith
  Step-paused (Step.cancels a now out ec h e) p = ground arith
  Step-paused (Step.accepts a now out ec h e) p = ground arith
  Step-paused (Step.pauses a now paused out ec h e) p = ground arith

-- The accounts of a revocation, after it.
abbrev pub after_revocation : MinterAccounts → TokenConfig × Minter × MinterRevoked → MinterAccounts
after_revocation a out = record a { admin = record (a.admin) { config = out.0 }; minter = out.1 }

-- After a successful revocation the same minter can be revoked again at any time: the second
-- revocation succeeds, leaves the minter as it is, and the two together take two off the minter
-- count, down to zero.
pub revoke_again :
    (R : Runtime) (a : MinterAccounts) (now later : ℤ) (out : TokenConfig × Minter × MinterRevoked)
    → revoke_minter R a now ≡ ok out
    → (again : TokenConfig × Minter × MinterRevoked) × (revoke_minter R
          (after_revocation a out)
          later
        ≡ ok again)
      × (again.1 ≡ out.1)
      × (again.0.minter_count ≡ a.admin.config.minter_count - 2)
unfolding revoke_minter check_minter check_admin
revoke_again R a now later out h = (
  (
    record (out.0) { minter_count = saturating_sub out.0.minter_count 1 },
    out.1,
    record {
      config = a.admin.config_key;
      minter = a.minter_key;
      authority = a.minter.authority;
      total_minted = a.minter.total_minted;
      timestamp = later;
    },
  ),
  ground arith,
  refl,
  ground arith,
)

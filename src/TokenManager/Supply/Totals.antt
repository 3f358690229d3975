-- ===== src/TokenManager/Supply/Totals.antt =====
-- The minted totals of a configuration and of its minters.
use helix_protocol.Prelude.{ℕ, ◌+◌, ◌≤◌, ◌≡◌, arith}
use helix_protocol.Prelude.Lists.{sum_by, sum_by-set}
use helix_protocol.Prelude.Int.{ℤ}
use helix_protocol.Prelude.Fallible.{ok, Result-cases, >>-eq-ok}
use helix_protocol.Prelude.{inl, inr, Option-cases}
use helix_protocol.Anchor.{Runtime, Mint, TokenProgram}
use helix_protocol.TokenManager.Types.{TokenConfig, Minter, max_minters}
use helix_protocol.TokenManager.Events.{TokenInitialized, MinterRegistered}
use helix_protocol.TokenManager.State.{accrue, epoch_at}
use helix_protocol.TokenManager.State.Cap.{accrue-Accrued}
use helix_protocol.TokenManager.Registry.{
  InitializeTokenAccounts, InitializeTokenArgs, initialize_token, RegisterMinterAccounts,
  register_minter, update_minter, revoke_minter, propose_admin, cancel_admin_transfer, accept_admin,
  set_paused,
}
use helix_protocol.TokenManager.Issuance.{
  MintTokensAccounts, MintOutcome, check_mint_tokens, mint_to_handler, mint_to, burn,
}
use helix_protocol.TokenManager.Supply.{System, created, Step, Reach, here, next}

abbrev pub minted : Minter → ℕ
minted m = m.total_minted

-- The minted total is the sum over the minters, and no more minters count than the bound.
pub record IsTallied (s : System) : Type 0 where
  pub total : s.config.total_minted ≡ sum_by minted s.minters
  pub count : s.config.minter_count ≤ max_minters

mint_to_handler-minted :
    (T : TokenProgram) (a : MintTokensAccounts) (now : ℤ) (amount : ℕ) (out : MintOutcome)
    → mint_to_handler T a now amount ≡ ok out
    → (out.config.total_minted ≡ a.config.total_minted + amount)
      × (out.minter.total_minted ≡ a.minter.total_minted + amount)
      × (out.config.minter_count ≡ a.config.minter_count)
unfolding mint_to_handler
mint_to_handler-minted T a now amount out h = elim (Result-cases (accrue a.minter amount now)) [
  | inl (f, e) ↦ ground arith
  | inr (m, e) ↦
      let k = accrue-Accrued a.minter amount now m e in
      elim (Option-cases (T.mint_to a.mint a.recipient a.mint_authority amount)) [
        | inl none_e ↦ ground arith
        | inr (r, some_e) ↦ (ground arith, ground (arith, k.frame), ground arith)
      ]
]

register_minter-minted :
    (R : Runtime) (a : RegisterMinterAccounts) (now : ℤ) (authority epoch_cap : ℕ) (epoch : ℤ)
    (out : TokenConfig × Minter × MinterRegistered)
    → register_minter R a now authority epoch_cap epoch ≡ ok out
    → (out.0.total_minted ≡ a.admin.config.total_minted)
      × (out.1.total_minted ≡ 0)
      × (out.0.minter_count ≤ max_minters)
unfolding register_minter epoch_at
register_minter-minted R a now authority epoch_cap epoch out h =
    (ground arith, ground arith, ground arith)

module _ (R : Runtime) (T : TokenProgram) (s t : System) where
  pub Step-IsTallied : Step R T s t → IsTallied s → IsTallied t
  unfolding mint_to burn update_minter revoke_minter propose_admin cancel_admin_transfer
      accept_admin set_paused
  Step-IsTallied (Step.registers a now authority epoch_cap epoch out ec h e) v =
      let (total, fresh, count) = register_minter-minted R a now authority epoch_cap epoch out h in
      rw e (record { total = ground (arith, total, fresh, ec, v.total); count = count })
  Step-IsTallied (Step.updates a i now epoch_cap enabled out ec at h e) v = rw e (record {
    total = ground (arith, v.total, sum_by-set minted s.minters i a.minter out.0 at);
    count = v.count;
  })
  Step-IsTallied (Step.revokes a i now out ec at h e) v = rw e (record {
    total = ground (arith, v.total, sum_by-set minted s.minters i a.minter out.1 at);
    count = ground (arith, v.count);
  })
  Step-IsTallied (Step.mints a i now amount out ec at h e) v =
      let (total, own, count) =
        mint_to_handler-minted T a now amount out (>>-eq-ok (check_mint_tokens R a) _ h).1 in
      rw e (record {
        total =
            ground (
              arith,
              total,
              own,
              ec,
              v.total,
              sum_by-set minted s.minters i a.minter out.minter at,
            );
        count = ground (arith, count, ec, v.count);
      })
  Step-IsTallied (Step.burns a now amount out ec h e) v =
      rw e (record { total = ground (arith, v.total); count = ground (arith, v.count) })
  Step-IsTallied (Step.proposes a now new_admin out ec h e) v =
      rw e (record { total = ground (arith, v.total); count = ground (arith, v.count) })
  Step-IsTallied (Step.cancels a now out ec h e) v =
      rw e (record { total = ground (arith, v.total); count = ground (arith, v.count) })
  Step-IsTallied (Step.accepts a now out ec h e) v =
      rw e (record { total = ground (arith, v.total); count = ground (arith, v.count) })
  Step-IsTallied (Step.pauses a now paused out ec h e) v =
      rw e (record { total = ground (arith, v.total); count = ground (arith, v.count) })

initialize_token-IsTallied :
    (R : Runtime) (a : InitializeTokenAccounts) (now : ℤ) (args : InitializeTokenArgs)
    (out : TokenConfig × Mint × TokenInitialized)
    → initialize_token R a now args ≡ ok out
    → IsTallied (created out)
unfolding initialize_token
initialize_token-IsTallied R a now args out h = record {
  total = ground arith;
  count = ground arith;
}

Reach-IsTallied :
    (R : Runtime) (T : TokenProgram) (s t : System) → IsTallied s → Reach R T s t → IsTallied t
Reach-IsTallied R T s t v here = v
Reach-IsTallied R T s t v (next {t = m} r st) =
    Step-IsTallied R T m t st (Reach-IsTallied R T s m v r)

-- After any sequence of transactions from `initialize_token` on, the configuration's minted total
-- is the sum of the totals of its minters, and its minter count is at most the bound.
pub created-IsTallied :
    (R : Runtime) (T : TokenProgram) (a : InitializeTokenAccounts) (now : ℤ)
    (args : InitializeTokenArgs) (out : TokenConfig × Mint × TokenInitialized) (t : System)
    → initialize_token R a now args ≡ ok out
    → Reach R T (created out) t
    → IsTallied t
created-IsTallied R T a now args out t h r =
    Reach-IsTallied R T (created out) t (initialize_token-IsTallied R a now args out h) r

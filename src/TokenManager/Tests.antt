-- ===== src/TokenManager/Tests.antt =====
-- A token with one minter, and the theorems about the token manager at work on it.
use helix_protocol.Prelude.{
  ℕ, ◌-◌, ◌≤◌, ◌+◌, ◌≡◌, ◌⊎◌, refl, false, true, some, none, List, [], ◌∷◌,
}
use helix_protocol.Prelude.Int.{ℤ, pos}
use helix_protocol.Prelude.Fallible.{ok}
use helix_protocol.Anchor.{Mint}
use helix_protocol.Samples.{runtime, token_program, hlx, user_account}
use helix_protocol.TokenManager.Types.{TokenConfig, Minter}
use helix_protocol.TokenManager.Events.{
  TokenInitialized, MinterRegistered, MinterRevoked, AdminTransferProposed, AdminTransferAccepted,
  PauseToggled,
}
use helix_protocol.TokenManager.State.{epoch_at, accrue}
use helix_protocol.TokenManager.State.Cap.{issued, accrue_all, accrue_all-le-cap}
use helix_protocol.TokenManager.Registry.{
  InitializeTokenAccounts, InitializeTokenArgs, validate, check_initialize_token, initialize_token,
  ConfigSigner, check_admin, RegisterMinterAccounts, register_minter, MinterAccounts, check_minter,
  revoke_minter, propose_admin, accept_admin, set_paused,
}
use helix_protocol.TokenManager.Issuance.{
  MintTokensAccounts, MintOutcome, check_mint_tokens, mint_to_handler, mint_to,
}
use helix_protocol.TokenManager.Supply.{System, created, Step, Reach, here, next}
use helix_protocol.TokenManager.Supply.Totals.{IsTallied, created-IsTallied}
use helix_protocol.TokenManager.Supply.Handover.{
  Step-admin, Step-paused, after_revocation, revoke_again,
}

abbrev creation : InitializeTokenAccounts
creation = record {
  admin = 30;
  config_key = 706;
  config_in_use = false;
  mint_authority = 70614;
  mint = 7;
  mint_in_use = false;
}

abbrev terms : InitializeTokenArgs
terms = record { decimals = 6; name = "Helix"; symbol = "HLX"; uri = "https://helix.example" }

created_ok :
    (out : TokenConfig × Mint × TokenInitialized) × (initialize_token runtime creation
        (pos 100)
        terms
      ≡ ok out)
unfolding initialize_token check_initialize_token validate
created_ok = (_, refl)

abbrev s₀ : System
s₀ = created created_ok.0

-- The admin of the configuration as it stands in a system.
abbrev admin_of : System → ConfigSigner
admin_of s = record { config_key = 706; config = s.config; signer = 30 }

abbrev registering : RegisterMinterAccounts
registering = record { admin = admin_of s₀; minter_key = 370606; minter_in_use = false }

registered_ok :
    (out : TokenConfig × Minter × MinterRegistered) × (register_minter runtime registering
        (pos 200)
        30
        5_000
        (pos 86_400)
      ≡ ok out)
unfolding created_ok register_minter check_admin epoch_at
registered_ok = (_, refl)

abbrev s₁ : System
s₁ = record s₀ { config = registered_ok.0.0; minters = registered_ok.0.1 ∷ [] }

abbrev minting : MintTokensAccounts
minting = record {
  config_key = 706;
  config = s₁.config;
  minter_key = 370606;
  minter = registered_ok.0.1;
  authority = 30;
  mint = hlx;
  mint_authority = 70614;
  recipient = user_account 0;
  token_program = 9;
}

minted_ok : (out : MintOutcome) × (mint_to runtime token_program minting (pos 300) 4_000 ≡ ok out)
unfolding created_ok registered_ok mint_to check_mint_tokens mint_to_handler accrue epoch_at
minted_ok = (_, refl)

abbrev s₂ : System
s₂ = record s₁ { config = minted_ok.0.config; minters = minted_ok.0.minter ∷ [] }

abbrev revoking : MinterAccounts
revoking = record { admin = admin_of s₂; minter_key = 370606; minter = minted_ok.0.minter }

revoked_ok :
    (out : TokenConfig × Minter × MinterRevoked) × (revoke_minter runtime revoking (pos 400)
      ≡ ok out)
unfolding created_ok registered_ok minted_ok revoke_minter check_minter check_admin
revoked_ok = (_, refl)

abbrev s₃ : System
s₃ = record s₂ { config = revoked_ok.0.0; minters = revoked_ok.0.1 ∷ [] }

proposed_ok :
    (out : TokenConfig × AdminTransferProposed) × (propose_admin runtime (admin_of s₃) (pos 500) 31
      ≡ ok out)
unfolding created_ok registered_ok minted_ok revoked_ok propose_admin check_admin
proposed_ok = (_, refl)

abbrev s₄ : System
s₄ = record s₃ { config = proposed_ok.0.0 }

abbrev accepting : ConfigSigner
accepting = record { config_key = 706; config = s₄.config; signer = 31 }

accepted_ok :
    (out : TokenConfig × AdminTransferAccepted) × (accept_admin runtime accepting (pos 600)
      ≡ ok out)
unfolding created_ok registered_ok minted_ok revoked_ok proposed_ok accept_admin
accepted_ok = (_, refl)

abbrev s₅ : System
s₅ = record s₄ { config = accepted_ok.0.0 }

accepts₅ : Step runtime token_program s₄ s₅
accepts₅ = Step.accepts accepting (pos 600) accepted_ok.0 refl accepted_ok.1 refl

history₅ : Reach runtime token_program s₀ s₅
unfolding created_ok registered_ok minted_ok revoked_ok proposed_ok accepted_ok
history₅ =
    next
      (next
        (next
          (next
            (next here (
              Step.registers registering (pos 200) 30 5_000 (pos 86_400) registered_ok.0 refl
                registered_ok.1 refl))
            (Step.mints minting 0 (pos 300) 4_000 minted_ok.0 refl refl minted_ok.1 refl))
          (Step.revokes revoking 0 (pos 400) revoked_ok.0 refl refl revoked_ok.1 refl))
        (Step.proposes (admin_of s₃) (pos 500) 31 proposed_ok.0 refl proposed_ok.1 refl))
      accepts₅

created-IsTallied_example : IsTallied s₅
created-IsTallied_example =
    created-IsTallied runtime token_program creation (pos 100) terms created_ok.0 s₅ created_ok.1
      history₅

Step-admin_example :
    (s₅.config.admin ≡ s₄.config.admin)
    ⊎ ((s₄.config.pending_admin ≡ some s₅.config.admin) × (s₅.config.pending_admin ≡ none))
Step-admin_example = Step-admin runtime token_program s₄ s₅ accepts₅

-- The system paused, and then a minter registered in it.
paused_ok :
    (out : TokenConfig × PauseToggled) × (set_paused runtime (admin_of s₂) (pos 400) true ≡ ok out)
unfolding created_ok registered_ok minted_ok set_paused check_admin
paused_ok = (_, refl)

abbrev p₀ : System
p₀ = record s₂ { config = paused_ok.0.0 }

abbrev registering_paused : RegisterMinterAccounts
registering_paused = record { admin = admin_of p₀; minter_key = 380606; minter_in_use = false }

registered_paused_ok :
    (out : TokenConfig × Minter × MinterRegistered) × (register_minter runtime registering_paused
        (pos 500)
        31
        800
        (pos 3_600)
      ≡ ok out)
unfolding created_ok registered_ok minted_ok paused_ok register_minter check_admin epoch_at
registered_paused_ok = (_, refl)

abbrev p₁ : System
p₁ = record p₀ {
  config = registered_paused_ok.0.0;
  minters = registered_paused_ok.0.1 ∷ p₀.minters;
}

Step-paused_example : p₁.config.total_minted ≡ p₀.config.total_minted
unfolding paused_ok
Step-paused_example =
    Step-paused runtime token_program p₀ p₁
      (Step.registers registering_paused (pos 500) 31 800 (pos 3_600) registered_paused_ok.0 refl
        registered_paused_ok.1 refl)
      refl

revoke_again_example :
    (again : TokenConfig × Minter × MinterRevoked) × (revoke_minter runtime
        (after_revocation revoking revoked_ok.0)
        (pos 500)
      ≡ ok again)
    × (again.1 ≡ revoked_ok.0.1)
    × (again.0.minter_count ≡ s₂.config.minter_count - 2)
revoke_again_example = revoke_again runtime revoking (pos 400) (pos 500) revoked_ok.0 revoked_ok.1

abbrev issuances : List (ℕ × ℤ)
issuances = (3_000, pos 400) ∷ (2_000, pos 80_000) ∷ []

issued_ok : (m : Minter) × (accrue_all registered_ok.0.1 issuances ≡ ok m)
unfolding created_ok registered_ok accrue_all accrue epoch_at
issued_ok = (_, refl)

accrue_all-le-cap_example :
    (issued issuances ≤ registered_ok.0.1.epoch_cap)
    × (issued_ok.0.total_minted ≡ registered_ok.0.1.total_minted + issued issuances)
unfolding created_ok registered_ok epoch_at
accrue_all-le-cap_example =
    accrue_all-le-cap registered_ok.0.1 issued_ok.0 0 issuances (refl, (refl, tt)) issued_ok.1

-- ===== src/Governance/Execute/Tests.antt =====
-- A realm that administers a token with two minters, and one proposal to revoke a minter.
use helix_protocol.Prelude.{ℕ, ◌≡◌, refl, false}
use helix_protocol.Prelude.Int.{pos, ◌+ℤ◌}
use helix_protocol.Prelude.Fallible.{ok}
use helix_protocol.Anchor.{Mint}
use helix_protocol.Samples.{runtime}
use helix_protocol.TokenManager.Types.{TokenConfig, Minter}
use helix_protocol.TokenManager.Events.{TokenInitialized, MinterRegistered, MinterRevoked}
use helix_protocol.TokenManager.State.{epoch_at}
use helix_protocol.TokenManager.Registry.{
  InitializeTokenAccounts, InitializeTokenArgs, validate, check_initialize_token, initialize_token,
  RegisterMinterAccounts, register_minter, check_admin, check_minter, revoke_minter,
}
use helix_protocol.Governance.Types.{Realm, Proposal, ProposalAction, queued}
use helix_protocol.Governance.Events.{ProposalExecuted}
use helix_protocol.Governance.State.{require_state, expires_at, authorize_execution}
use helix_protocol.Governance.Proposals.{check_proposal}
use helix_protocol.Governance.Execute.{check_execute, executed_event}
use helix_protocol.Governance.Execute.Token.{
  ExecuteModifyMinterAccounts, minter_accounts, is_revoke_minter, execute_revoke_minter,
}
use helix_protocol.Governance.Execute.Choice.{with_minter, execute_revoke_minter_any}

abbrev creation : InitializeTokenAccounts
creation = record {
  admin = 707040508;
  config_key = 706;
  config_in_use = false;
  mint_authority = 70614;
  mint = 7;
  mint_in_use = false;
}

abbrev terms : InitializeTokenArgs
terms = record { decimals = 6; name = "Helix"; symbol = "HLX"; uri = "https://helix.example" }

created_ok :
    (out : TokenConfig × Mint × TokenInitialized) × (initialize_token runtime creation
        (pos 100)
        terms
      ≡ ok out)
unfolding initialize_token check_initialize_token validate
created_ok = (_, refl)

abbrev registering : ℕ → TokenConfig → RegisterMinterAccounts
registering k config = record {
  admin = record { config_key = 706; config = config; signer = 707040508 };
  minter_key = k;
  minter_in_use = false;
}

first_ok :
    (out : TokenConfig × Minter × MinterRegistered) × (register_minter runtime
        (registering 370606 created_ok.0.0)
        (pos 200)
        30
        5_000
        (pos 86_400)
      ≡ ok out)
unfolding created_ok register_minter check_admin epoch_at
first_ok = (_, refl)

second_ok :
    (out : TokenConfig × Minter × MinterRegistered) × (register_minter runtime
        (registering 380606 first_ok.0.0)
        (pos 200)
        31
        9_000
        (pos 86_400)
      ≡ ok out)
unfolding created_ok first_ok register_minter check_admin epoch_at
second_ok = (_, refl)

abbrev realm₀ : Realm
realm₀ = record {
  authority = 80;
  guardian = 81;
  staking_pool = 70704;
  quorum_bps = 2_000;
  approval_bps = 6_000;
  voting_period = pos 3_600;
  timelock_delay = pos 7_200;
  min_weight_to_propose = 100;
  proposal_count = 1;
  bump = 255;
  executor_bump = 255;
}

abbrev revocation : Proposal
revocation = record {
  realm = 7070405;
  proposer = 40;
  id = 0;
  state = queued;
  action = ProposalAction.revoke_minter;
  title = "Revoke minter 30";
  descriptor_uri = "ipfs://revoke";
  created_at = pos 100;
  voting_starts_at = pos 200;
  voting_ends_at = pos 3_800;
  eta = pos 11_200;
  for_votes = 10_000;
  against_votes = 0;
  abstain_votes = 0;
  total_weight_snapshot = 10_000;
  position_count_snapshot = 1;
  bump = 255;
}

abbrev revoking : ExecuteModifyMinterAccounts
revoking = record {
  admin = record {
    base = record {
      on = record {
        realm_key = 7070405;
        realm = realm₀;
        proposal_key = 707040508;
        proposal = revocation;
      };
      executor = 707040508;
    };
    token_config_key = 706;
    token_config = second_ok.0.0;
  };
  minter_key = 370606;
  minter = first_ok.0.1;
}

executed_ok :
    (out : Proposal × (TokenConfig × Minter × MinterRevoked) × ProposalExecuted)
    × (execute_revoke_minter runtime revoking (pos 12_000) ≡ ok out)
unfolding created_ok first_ok second_ok execute_revoke_minter check_execute check_proposal
    is_revoke_minter authorize_execution require_state expires_at revoke_minter check_minter
    check_admin ◌+ℤ◌
executed_ok = (_, refl)

other_ok :
    (out : TokenConfig × Minter × MinterRevoked) × (revoke_minter runtime
        (minter_accounts (with_minter revoking 380606 second_ok.0.1))
        (pos 12_000)
      ≡ ok out)
unfolding created_ok first_ok second_ok revoke_minter check_minter check_admin
other_ok = (_, refl)

execute_revoke_minter_any_example :
    execute_revoke_minter runtime (with_minter revoking 380606 second_ok.0.1) (pos 12_000)
    ≡ ok (
      executed_ok.0.0,
      other_ok.0,
      executed_event revoking.admin.base.on executed_ok.0.0 (pos 12_000),
    )
execute_revoke_minter_any_example =
    execute_revoke_minter_any runtime revoking (pos 12_000) 380606 second_ok.0.1 executed_ok.0
      other_ok.0 executed_ok.1 other_ok.1

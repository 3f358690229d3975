-- ===== src/Governance/Realm.antt =====
-- programs/governance/src/instructions/realm.rs: creation of a realm and changes of its parameters.
use helix_protocol.Prelude.{Bool, false, not, List, [], ◌∷◌, ◌==◌, ltb, leb, ◌&&◌}
use helix_protocol.Prelude.Int.{ℤ, leb_ℤ}
use helix_protocol.Prelude.Fallible.{
  custom, ok, ◌>>◌, require, constraint, constraint_seeds, account_in_use,
}
use helix_protocol.Anchor.{Pubkey, Seed, helix_governance, Runtime, derives, finds}
use helix_protocol.Governance.Types.{
  Realm, RealmParams, realm_seed, executor_seed, min_voting_period, max_voting_period,
  min_timelock_delay, max_timelock_delay, max_bps, min_approval_bps, invalid_quorum,
  invalid_approval_threshold, invalid_voting_period, invalid_timelock_delay, not_authority,
}
use helix_protocol.Governance.State.{Fallible}
use helix_protocol.Governance.Events.{RealmInitialized, RealmParamsUpdated}

-- `RealmParams::validate`.
unfoldable pub validate : RealmParams → Fallible (Unit {0})
validate p = do
  require (ltb 0 p.quorum_bps && leb p.quorum_bps max_bps) invalid_quorum
  require (leb min_approval_bps p.approval_bps && leb p.approval_bps max_bps)
      invalid_approval_threshold
  require (leb_ℤ min_voting_period p.voting_period && leb_ℤ p.voting_period max_voting_period)
      invalid_voting_period
  require (leb_ℤ min_timelock_delay p.timelock_delay && leb_ℤ p.timelock_delay max_timelock_delay)
      invalid_timelock_delay

-- The accounts of `InitializeRealm`.
pub record InitializeRealmAccounts : Type 0 where
  pub authority : Pubkey
  pub guardian : Pubkey
  pub staking_pool : Pubkey
  pub realm_key : Pubkey
  pub realm_in_use : Bool
  pub executor : Pubkey

abbrev realm_address : InitializeRealmAccounts → List Seed
realm_address a = realm_seed ∷ Seed.key a.staking_pool ∷ []

abbrev executor_address : InitializeRealmAccounts → List Seed
executor_address a = executor_seed ∷ Seed.key a.realm_key ∷ []

-- The constraints of `#[derive(Accounts)] struct InitializeRealm`.
unfoldable pub check_initialize_realm : Runtime → InitializeRealmAccounts → Fallible (Unit {0})
check_initialize_realm R a = do
  constraint (finds R (realm_address a) helix_governance a.realm_key) constraint_seeds
  constraint (not a.realm_in_use) account_in_use
  constraint (finds R (executor_address a) helix_governance a.executor) constraint_seeds

-- The instruction `initialize_realm`.
unfoldable pub initialize_realm :
    Runtime → InitializeRealmAccounts → ℤ → RealmParams → Fallible (Realm × RealmInitialized)
unfolding check_initialize_realm validate
initialize_realm R a now p = do
  check_initialize_realm R a
  validate p
  ok (
    record {
      authority = a.authority;
      guardian = a.guardian;
      staking_pool = a.staking_pool;
      quorum_bps = p.quorum_bps;
      approval_bps = p.approval_bps;
      voting_period = p.voting_period;
      timelock_delay = p.timelock_delay;
      min_weight_to_propose = p.min_weight_to_propose;
      proposal_count = 0;
      bump = (R.find_program_address (realm_address a) helix_governance).1;
      executor_bump = (R.find_program_address (executor_address a) helix_governance).1;
    },
    record {
      realm = a.realm_key;
      authority = a.authority;
      guardian = a.guardian;
      staking_pool = a.staking_pool;
      quorum_bps = p.quorum_bps;
      approval_bps = p.approval_bps;
      voting_period = p.voting_period;
      timelock_delay = p.timelock_delay;
      min_weight_to_propose = p.min_weight_to_propose;
      timestamp = now;
    },
  )

-- The seeds of a realm's own address.
abbrev pub realm_seeds : Realm → List Seed
realm_seeds r = realm_seed ∷ Seed.key r.staking_pool ∷ []

-- The constraint that every other instruction makes on the realm.
abbrev pub realm_derives : Runtime → Realm → Pubkey → Bool
realm_derives R r key = derives R (realm_seeds r) r.bump helix_governance key

-- The accounts of `UpdateRealmParams`.
pub record UpdateRealmParamsAccounts : Type 0 where
  pub realm_key : Pubkey
  pub realm : Realm
  pub authority : Pubkey

-- The instruction `update_realm_params`, with the constraints of its accounts.
unfoldable pub update_realm_params :
    Runtime → UpdateRealmParamsAccounts → ℤ → RealmParams → Fallible (Realm × RealmParamsUpdated)
unfolding validate
update_realm_params R a now p = do
  constraint (realm_derives R a.realm a.realm_key) constraint_seeds
  constraint (a.realm.authority == a.authority) (custom not_authority)
  validate p
  ok (
    record (a.realm) {
      quorum_bps = p.quorum_bps;
      approval_bps = p.approval_bps;
      voting_period = p.voting_period;
      timelock_delay = p.timelock_delay;
      min_weight_to_propose = p.min_weight_to_propose;
    },
    record {
      realm = a.realm_key;
      by_proposal = false;
      quorum_bps = p.quorum_bps;
      approval_bps = p.approval_bps;
      voting_period = p.voting_period;
      timelock_delay = p.timelock_delay;
      min_weight_to_propose = p.min_weight_to_propose;
      timestamp = now;
    },
  )

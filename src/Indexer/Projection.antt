-- ===== src/Indexer/Projection.antt =====
-- indexer/src/projection.rs: the state that is folded from the events, and how an entity's row is
-- written. `analytics.pools.entry(k).or_default()` and the write to it are one operation here.
pub mod Staking
pub mod Governance
pub mod Treasury
pub mod Apply
pub mod Redelivery
pub mod Mirror
use helix_protocol.Prelude.{ℕ, String, Bool, true, false, not, ◌||◌, Option, none, some, List, []}
use helix_protocol.Prelude.{if◌then◌else◌}
use helix_protocol.Prelude.Int.{ℤ, pos}
use helix_protocol.Anchor.{Pubkey}
use helix_protocol.Staking.Types.{LockTier}
use helix_protocol.Governance.Types.{ProposalState}
use helix_protocol.Indexer.Maps.{Map, contains_key, or_insert, insert, EventId, insert_id}

pub record PoolStats : Type 0 where
  pub authority : Option Pubkey
  pub total_staked : ℕ
  pub total_weighted : ℕ
  pub position_count : ℕ
  pub reward_rate : ℕ
  pub reward_period_end : ℤ
  pub total_rewards_funded : ℕ
  pub total_rewards_paid : ℕ
  pub paused : Bool
  pub partial_history : Bool

pub record PositionStats : Type 0 where
  pub pool : Pubkey
  pub owner : Pubkey
  pub position_id : ℕ
  pub amount : ℕ
  pub weighted_amount : ℕ
  pub tier : LockTier
  pub lock_end : ℤ
  pub rewards_claimed : ℕ

pub record ProposalStats : Type 0 where
  pub realm : Pubkey
  pub proposer : Pubkey
  pub id : ℕ
  pub title : String
  pub state : ProposalState
  pub for_votes : ℕ
  pub against_votes : ℕ
  pub abstain_votes : ℕ
  pub total_weight_snapshot : ℕ
  pub position_count_snapshot : ℕ
  pub voters : Map (Unit {0})
  pub eta : Option ℤ

pub record StreamStats : Type 0 where
  pub beneficiary : Pubkey
  pub stream_id : ℕ
  pub total_amount : ℕ
  pub claimed : ℕ
  pub revoked : Bool

pub record TreasuryStats : Type 0 where
  pub governance_executor : Option Pubkey
  pub total_deposited : ℕ
  pub total_spent : ℕ
  pub epoch_spend_cap : ℕ
  pub open_streams : Map StreamStats
  pub total_stream_claims : ℕ
  pub partial_history : Bool

pub record RealmStats : Type 0 where
  pub authority : Option Pubkey
  pub guardian : Option Pubkey
  pub staking_pool : Option Pubkey
  pub quorum_bps : ℕ
  pub approval_bps : ℕ
  pub voting_period : ℤ
  pub timelock_delay : ℤ
  pub min_weight_to_propose : ℕ
  pub self_governing : Bool
  pub partial_history : Bool

-- `PoolStats::default`.
abbrev pub default_pool : PoolStats
default_pool = record {
  authority = none;
  total_staked = 0;
  total_weighted = 0;
  position_count = 0;
  reward_rate = 0;
  reward_period_end = pos 0;
  total_rewards_funded = 0;
  total_rewards_paid = 0;
  paused = false;
  partial_history = false;
}

-- `TreasuryStats::default`.
abbrev pub default_treasury : TreasuryStats
default_treasury = record {
  governance_executor = none;
  total_deposited = 0;
  total_spent = 0;
  epoch_spend_cap = 0;
  open_streams = [];
  total_stream_claims = 0;
  partial_history = false;
}

-- `RealmStats::default`.
abbrev pub default_realm : RealmStats
default_realm = record {
  authority = none;
  guardian = none;
  staking_pool = none;
  quorum_bps = 0;
  approval_bps = 0;
  voting_period = pos 0;
  timelock_delay = pos 0;
  min_weight_to_propose = 0;
  self_governing = false;
  partial_history = false;
}

pub record Analytics : Type 0 where
  pub pools : Map PoolStats
  pub positions : Map PositionStats
  pub proposals : Map ProposalStats
  pub treasuries : Map TreasuryStats
  pub realms : Map RealmStats
  pub applied : List EventId
  pub orphaned : List EventId

-- `Analytics::new`.
abbrev pub new : Analytics
new = record {
  pools = [];
  positions = [];
  proposals = [];
  treasuries = [];
  realms = [];
  applied = [];
  orphaned = [];
}

-- `self.orphaned.insert(id)`.
unfoldable pub orphan : Analytics → EventId → Analytics
orphan s id = record s { orphaned = insert_id s.orphaned id }

-- `Analytics::pool_mut`, and the write to the row that it returns.
unfoldable pub pool_mut : Analytics → Pubkey → EventId → (PoolStats → PoolStats) → Analytics
unfolding contains_key insert_id or_insert insert
pool_mut s pool id write =
    let unseen = not (contains_key s.pools pool) in
    let stats = or_insert default_pool s.pools pool in
    let stats = record stats { partial_history = stats.partial_history || unseen } in
    record s {
      orphaned = if unseen then insert_id s.orphaned id else s.orphaned;
      pools = insert s.pools pool (write stats);
    }

-- `Analytics::treasury_mut`, likewise.
unfoldable pub treasury_mut :
    Analytics → Pubkey → EventId → (TreasuryStats → TreasuryStats) → Analytics
unfolding contains_key insert_id or_insert insert
treasury_mut s treasury id write =
    let unseen = not (contains_key s.treasuries treasury) in
    let stats = or_insert default_treasury s.treasuries treasury in
    let stats = record stats { partial_history = stats.partial_history || unseen } in
    record s {
      orphaned = if unseen then insert_id s.orphaned id else s.orphaned;
      treasuries = insert s.treasuries treasury (write stats);
    }

-- `Analytics::realm_mut`, likewise.
unfoldable pub realm_mut : Analytics → Pubkey → EventId → (RealmStats → RealmStats) → Analytics
unfolding contains_key insert_id or_insert insert
realm_mut s realm id write =
    let unseen = not (contains_key s.realms realm) in
    let stats = or_insert default_realm s.realms realm in
    let stats = record stats { partial_history = stats.partial_history || unseen } in
    record s {
      orphaned = if unseen then insert_id s.orphaned id else s.orphaned;
      realms = insert s.realms realm (write stats);
    }

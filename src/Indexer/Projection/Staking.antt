-- ===== src/Indexer/Projection/Staking.antt =====
-- The arms of `fold` in indexer/src/projection.rs for the events of programs/staking.
use helix_protocol.Prelude.{ℕ, none, some}
use helix_protocol.Prelude.Machine.{u64_max, saturating_add, saturating_sub}
use helix_protocol.Staking.Events.{
  PoolInitialized, Staked, Unstaked, PositionClosed, RewardsClaimed, RewardsFunded,
  RewardRateChanged, PoolPauseToggled, AuthorityTransferAccepted,
}
use helix_protocol.Indexer.Maps.{lookup, or_insert, insert, remove, EventId}
use helix_protocol.Indexer.Projection.{
  PoolStats, PositionStats, default_pool, Analytics, orphan, pool_mut,
}

unfoldable pub fold_pool_initialized : Analytics → PoolInitialized → Analytics
fold_pool_initialized s e = record s {
  pools =
      insert s.pools e.pool
        (record (or_insert default_pool s.pools e.pool) { authority = some e.authority });
}

-- What a new position adds to its pool.
abbrev pub count_stake : Staked → PoolStats → PoolStats
count_stake e pool = record pool {
  total_staked = saturating_add u64_max pool.total_staked e.amount_credited;
  total_weighted = saturating_add u64_max pool.total_weighted e.weighted_amount;
  position_count = saturating_add u64_max pool.position_count 1;
}

unfoldable pub fold_staked : Analytics → EventId → Staked → Analytics
unfolding pool_mut insert
fold_staked s id e =
    let opened : PositionStats = record {
      pool = e.pool;
      owner = e.owner;
      position_id = e.position_id;
      amount = e.amount_credited;
      weighted_amount = e.weighted_amount;
      tier = e.tier;
      lock_end = e.lock_end;
      rewards_claimed = 0;
    } in
    pool_mut (record s { positions = insert s.positions e.position opened }) e.pool id
      (count_stake e)

-- What a withdrawal takes from the pool of a position that had the given weight.
abbrev pub count_unstake : Unstaked → ℕ → PoolStats → PoolStats
count_unstake e old_weighted pool = record pool {
  total_staked = saturating_sub pool.total_staked e.amount;
  total_weighted =
      saturating_sub pool.total_weighted (saturating_sub old_weighted e.weighted_amount);
}

unfoldable pub fold_unstaked : Analytics → EventId → Unstaked → Analytics
unfolding lookup orphan pool_mut insert
fold_unstaked s id e = elim (lookup s.positions e.position) [
  | none ↦ orphan s id
  | some position ↦
      let left = record position { amount = e.remaining; weighted_amount = e.weighted_amount } in
      pool_mut (record s { positions = insert s.positions e.position left }) e.pool id
        (count_unstake e position.weighted_amount)
]

unfoldable pub fold_position_closed : Analytics → EventId → PositionClosed → Analytics
unfolding lookup orphan remove
fold_position_closed s id e = elim (lookup s.positions e.position) [
  | none ↦ orphan s id
  | some position ↦ record s { positions = remove s.positions e.position }
]

-- The claim on the row of the position.
abbrev claim_position : Analytics → EventId → RewardsClaimed → Analytics
claim_position s id e = elim (lookup s.positions e.position) [
  | none ↦ orphan s id
  | some position ↦ record s {
    positions = insert s.positions e.position (record position {
      rewards_claimed = saturating_add u64_max position.rewards_claimed e.amount;
    });
  }
]

abbrev pub count_claim : RewardsClaimed → PoolStats → PoolStats
count_claim e pool = record pool {
  total_rewards_paid = saturating_add u64_max pool.total_rewards_paid e.amount;
}

unfoldable pub fold_rewards_claimed : Analytics → EventId → RewardsClaimed → Analytics
unfolding lookup orphan insert pool_mut
fold_rewards_claimed s id e = pool_mut (claim_position s id e) e.pool id (count_claim e)

unfoldable pub fold_rewards_funded : Analytics → EventId → RewardsFunded → Analytics
unfolding pool_mut
fold_rewards_funded s id e =
    pool_mut s e.pool id (λ pool. record pool { total_rewards_funded = e.total_funded })

unfoldable pub fold_reward_rate_changed : Analytics → EventId → RewardRateChanged → Analytics
unfolding pool_mut
fold_reward_rate_changed s id e =
    pool_mut s e.pool id
      (λ pool. record pool { reward_rate = e.new_rate; reward_period_end = e.reward_period_end })

unfoldable pub fold_pool_pause_toggled : Analytics → EventId → PoolPauseToggled → Analytics
unfolding pool_mut
fold_pool_pause_toggled s id e = pool_mut s e.pool id (λ pool. record pool { paused = e.paused })

unfoldable pub fold_authority_transfer_accepted :
    Analytics → EventId → AuthorityTransferAccepted → Analytics
unfolding pool_mut
fold_authority_transfer_accepted s id e =
    pool_mut s e.pool id (λ pool. record pool { authority = some e.new_authority })

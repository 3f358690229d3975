-- ===== src/Indexer/Projection/Mirror/Deposits.antt =====
-- The arm of `fold` of indexer/src/projection.rs for the event of `stake`.
use helix_protocol.Prelude.{ℕ, ◌+◌, ◌≡◌, refl, sym, ◌∙◌, ap, some, arith}
use helix_protocol.Prelude.Int.{ℤ}
use helix_protocol.Prelude.Fallible.{ok}
use helix_protocol.Anchor.{Runtime, TokenProgram}
use helix_protocol.Staking.Types.{Pool, LockTier}
use helix_protocol.Staking.Events.{Staked}
use helix_protocol.Staking.Stake.{StakeAccounts, StakeOutcome, stake}
use helix_protocol.Staking.Effects.Stake.{stake-Opened}
use helix_protocol.Staking.State.Update.{update_rewards-Updated}
use helix_protocol.Indexer.Maps.{EventId, lookup, insert}
use helix_protocol.Indexer.Projection.{PoolStats, PositionStats, Analytics, pool_mut}
use helix_protocol.Indexer.Projection.Staking.{count_stake, fold_staked}
use helix_protocol.Indexer.Projection.Mirror.{Ledger, writes, MirrorsPool, MirrorsPosition, Mirrors}
use helix_protocol.Indexer.Projection.Mirror.Events.{stake-event}
use helix_protocol.Indexer.Projection.Mirror.Pools.{
  pool_mut-Mirrors, position-Mirrors, moved-Mirrors,
}

-- The row that a `Staked` event opens.
abbrev opened_row : Staked → PositionStats
opened_row e = record {
  pool = e.pool;
  owner = e.owner;
  position_id = e.position_id;
  amount = e.amount_credited;
  weighted_amount = e.weighted_amount;
  tier = e.tier;
  lock_end = e.lock_end;
  rewards_claimed = 0;
}

fold_staked-eq :
    (s : Analytics) (id : EventId) (e : Staked)
    → fold_staked s id e
      ≡ pool_mut
          (record s { positions = insert s.positions e.position (opened_row e) })
          e.pool
          id
          (count_stake e)
unfolding fold_staked
fold_staked-eq s id e = refl

module _ (R : Runtime) (T : TokenProgram) where
  counted-MirrorsPool :
      (a : StakeAccounts) (now : ℤ) (n amount : ℕ) (tier : LockTier) (out : StakeOutcome)
      → stake R T a now n amount tier ≡ ok out
      → (x : PoolStats) → MirrorsPool a.pool x
      → MirrorsPool out.pool (count_stake out.event x)
  counted-MirrorsPool a now n amount tier out h x mx =
      let o = stake-Opened R T a now n amount tier out h in
      let kept = (update_rewards-Updated a.pool o.updated now o.update).frame in
      let k = stake-event R T a now n amount tier out h in
      let pool = o.pool ∙ ap (λ u. grown u out.position.amount out.position.weighted_amount) kept in
      rw k.event (record {
        authority = rw pool mx.authority;
        total_staked = ground (arith, mx.total_staked, o.pool, kept, k.staked_fits);
        total_weighted = ground (arith, mx.total_weighted, o.pool, kept, k.weighted_fits);
        position_count = ground (arith, mx.position_count, o.pool, kept, k.count_fits);
        reward_rate = rw pool mx.reward_rate;
        reward_period_end = rw pool mx.reward_period_end;
        total_rewards_funded = rw pool mx.total_rewards_funded;
        total_rewards_paid = rw pool mx.total_rewards_paid;
        paused = rw pool mx.paused;
        whole = mx.whole;
      })
    where
      grown : Pool → ℕ → ℕ → Pool
      grown p n w = record p {
        total_staked = p.total_staked + n;
        total_weighted = p.total_weighted + w;
        position_count = p.position_count + 1;
      }

  pub staked-Mirrors :
      (l : Ledger) (s : Analytics) (id : EventId) (a : StakeAccounts) (now : ℤ) (n amount : ℕ)
      (tier : LockTier) (out : StakeOutcome)
      → lookup l.pools a.pool_key ≡ some a.pool
      → stake R T a now n amount tier ≡ ok out
      → Mirrors l s
      → Mirrors
          (writes l a.pool_key out.pool a.position_key out.position)
          (fold_staked s id out.event)
  staked-Mirrors l s id a now n amount tier out ep h m =
      let k = stake-event R T a now n amount tier out h in
      let row : MirrorsPosition out.position (opened_row out.event) = rw k.event (record {
        pool = sym k.pool;
        owner = sym k.owner;
        position_id = refl;
        amount = refl;
        weighted_amount = refl;
        tier = refl;
        lock_end = refl;
      }) in
      let at_position : out.event.position ≡ a.position_key = rw k.event refl in
      let at_pool : out.event.pool ≡ a.pool_key = rw k.event refl in
      let opened = position-Mirrors l s out.event.position out.position _ row m in
      let done =
        pool_mut-Mirrors _ _ out.event.pool id (count_stake out.event) a.pool out.pool
          (rw at_pool ep) (counted-MirrorsPool a now n amount tier out h) opened in
      rw (fold_staked-eq s id out.event) (moved-Mirrors l _ _ _ at_pool at_position done)

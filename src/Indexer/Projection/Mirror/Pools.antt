-- ===== src/Indexer/Projection/Mirror/Pools.antt =====
-- Writes to the rows of a projection that agrees with the accounts: `pool_mut` of
-- indexer/src/projection.rs.
use helix_protocol.Prelude.{◌≡◌, refl, false, some, arith}
use helix_protocol.Anchor.{Pubkey}
use helix_protocol.Staking.Types.{Pool, Position}
use helix_protocol.Indexer.Maps.{EventId, lookup, contains_key, or_insert, insert}
use helix_protocol.Indexer.Projection.{PoolStats, PositionStats, Analytics, pool_mut}
use helix_protocol.Indexer.Projection.Mirror.{
  Ledger, opens_pool, writes, MirrorsPool, MirrorsPosition, Mirrors, insert-Both, partner,
}

abbrev whole : PoolStats → PoolStats
whole x = record x { partial_history = false }

pool_mut-known :
    (s : Analytics) (k : Pubkey) (id : EventId) (write : PoolStats → PoolStats) (x : PoolStats)
    → lookup s.pools k ≡ some x
    → x.partial_history ≡ false
    → pool_mut s k id write ≡ record s { pools = insert s.pools k (write (whole x)) }
unfolding pool_mut contains_key or_insert
pool_mut-known s k id write x e w = ground (arith, e, w)

whole-MirrorsPool : (p : Pool) (x : PoolStats) → MirrorsPool p x → MirrorsPool p (whole x)
whole-MirrorsPool p x m = record {
  authority = m.authority;
  total_staked = m.total_staked;
  total_weighted = m.total_weighted;
  position_count = m.position_count;
  reward_rate = m.reward_rate;
  reward_period_end = m.reward_period_end;
  total_rewards_funded = m.total_rewards_funded;
  total_rewards_paid = m.total_rewards_paid;
  paused = m.paused;
  whole = refl;
}

-- A write to a row that is there, by an instruction that turns the pool into `q`.
pub pool_mut-Mirrors :
    (l : Ledger) (s : Analytics) (k : Pubkey) (id : EventId) (write : PoolStats → PoolStats)
    (p q : Pool)
    → lookup l.pools k ≡ some p
    → ((x : PoolStats) → MirrorsPool p x → MirrorsPool q (write x))
    → Mirrors l s
    → Mirrors (opens_pool l k q) (pool_mut s k id write)
pool_mut-Mirrors l s k id write p q e keeps m =
    let (x, ex, mx) = partner MirrorsPool l.pools s.pools k p e (m.pools k) in
    rw (pool_mut-known s k id write x ex mx.whole) (record {
      pools =
          insert-Both MirrorsPool l.pools s.pools k q (write (whole x))
            (keeps (whole x) (whole-MirrorsPool p x mx)) m.pools;
      positions = m.positions;
      complete = m.complete;
    })

pub position-Mirrors :
    (l : Ledger) (s : Analytics) (k : Pubkey) (p : Position) (x : PositionStats)
    → MirrorsPosition p x
    → Mirrors l s
    → Mirrors
        (record l { positions = insert l.positions k p })
        (record s { positions = insert s.positions k x })
position-Mirrors l s k p x h m = record {
  pools = m.pools;
  positions = insert-Both MirrorsPosition l.positions s.positions k p x h m.positions;
  complete = m.complete;
}

pub moved-Mirrors :
    (l : Ledger) (s : Analytics) (p : Pool) (x : Position) {i i' j j' : Pubkey}
    → i ≡ i'
    → j ≡ j'
    → Mirrors (writes l i p j x) s
    → Mirrors (writes l i' p j' x) s
moved-Mirrors l s p x ei ej h = rw (← ei, ← ej) h

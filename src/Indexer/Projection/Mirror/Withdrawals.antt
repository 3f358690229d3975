-- ===== src/Indexer/Projection/Mirror/Withdrawals.antt =====
-- The arms of `fold` of indexer/src/projection.rs for the events of `claim` and `unstake`.
use helix_protocol.Prelude.{ℕ, ◌+◌, ◌≡◌, refl, ◌∙◌, ap, some, arith}
use helix_protocol.Prelude.Int.{ℤ}
use helix_protocol.Prelude.Machine.{u64_max, saturating_add}
use helix_protocol.Prelude.Fallible.{ok}
use helix_protocol.Anchor.{Runtime, TokenProgram}
use helix_protocol.Staking.Types.{Pool, Position}
use helix_protocol.Staking.Events.{Unstaked, RewardsClaimed}
use helix_protocol.Staking.Withdraw.{
  UnstakeAccounts, UnstakeOutcome, unstake, ClaimAccounts, ClaimOutcome, claim,
}
use helix_protocol.Staking.Effects.Withdraw.{unstake-Withdrawn, claim-Claimed}
use helix_protocol.Staking.State.Update.{update_rewards-Updated}
use helix_protocol.Staking.State.Settle.{settle-Settled}
use helix_protocol.Indexer.Maps.{EventId, lookup, insert}
use helix_protocol.Indexer.Projection.{PoolStats, PositionStats, Analytics, pool_mut}
use helix_protocol.Indexer.Projection.Staking.{
  count_unstake, fold_unstaked, fold_rewards_claimed, count_claim,
}
use helix_protocol.Indexer.Projection.Mirror.{
  Ledger, writes, MirrorsPool, MirrorsPosition, Mirrors, partner,
}
use helix_protocol.Indexer.Projection.Mirror.Events.{unstake-event, claim-event}
use helix_protocol.Indexer.Projection.Mirror.Pools.{
  pool_mut-Mirrors, position-Mirrors, moved-Mirrors,
}

-- What a `RewardsClaimed` and an `Unstaked` event make of a position's row.
abbrev claimed_row : RewardsClaimed → PositionStats → PositionStats
claimed_row e x = record x { rewards_claimed = saturating_add u64_max x.rewards_claimed e.amount }

abbrev unstaked_row : Unstaked → PositionStats → PositionStats
unstaked_row e x = record x { amount = e.remaining; weighted_amount = e.weighted_amount }

fold_rewards_claimed-eq :
    (s : Analytics) (id : EventId) (e : RewardsClaimed) (x : PositionStats)
    → lookup s.positions e.position ≡ some x
    → fold_rewards_claimed s id e
      ≡ pool_mut
          (record s { positions = insert s.positions e.position (claimed_row e x) })
          e.pool
          id
          (count_claim e)
unfolding fold_rewards_claimed
fold_rewards_claimed-eq s id e x h = ground (arith, h)

fold_unstaked-eq :
    (s : Analytics) (id : EventId) (e : Unstaked) (x : PositionStats)
    → lookup s.positions e.position ≡ some x
    → fold_unstaked s id e
      ≡ pool_mut
          (record s { positions = insert s.positions e.position (unstaked_row e x) })
          e.pool
          id
          (count_unstake e x.weighted_amount)
unfolding fold_unstaked
fold_unstaked-eq s id e x h = ground (arith, h)

module _ (R : Runtime) (T : TokenProgram) where
  paid-MirrorsPool :
      (a : ClaimAccounts) (now : ℤ) (out : ClaimOutcome)
      → claim R T a now ≡ ok out
      → (x : PoolStats) → MirrorsPool a.pool x
      → MirrorsPool out.pool (count_claim out.event x)
  paid-MirrorsPool a now out h x mx =
      let o = claim-Claimed R T a now out h in
      let kept = (update_rewards-Updated a.pool o.updated now o.update).frame in
      let k = claim-event R T a now out h in
      let pool = o.pool ∙ ap (λ u. paid_out u o.settled.pending_rewards) kept in
      record {
        authority = rw pool mx.authority;
        total_staked = rw pool mx.total_staked;
        total_weighted = rw pool mx.total_weighted;
        position_count = rw pool mx.position_count;
        reward_rate = rw pool mx.reward_rate;
        reward_period_end = rw pool mx.reward_period_end;
        total_rewards_funded = rw pool mx.total_rewards_funded;
        total_rewards_paid = ground (arith, mx.total_rewards_paid, k.paid, k.fits);
        paused = rw pool mx.paused;
        whole = mx.whole;
      }
    where
      paid_out : Pool → ℕ → Pool
      paid_out p n = record p { total_rewards_paid = p.total_rewards_paid + n }

  pub claimed-Mirrors :
      (l : Ledger) (s : Analytics) (id : EventId) (a : ClaimAccounts) (now : ℤ) (out : ClaimOutcome)
      → lookup l.pools a.pool_key ≡ some a.pool
      → lookup l.positions a.position_key ≡ some a.position
      → claim R T a now ≡ ok out
      → Mirrors l s
      → Mirrors
          (writes l a.pool_key out.pool a.position_key out.position)
          (fold_rewards_claimed s id out.event)
  claimed-Mirrors l s id a now out ep ex h m =
      let o = claim-Claimed R T a now out h in
      let kept =
        o.position
        ∙ ap (λ (u : Position). record u { pending_rewards = 0 })
            (settle-Settled _ a.position o.settled o.settlement).frame in
      let k = claim-event R T a now out h in
      let at_position : out.event.position ≡ a.position_key = rw k.event refl in
      let at_pool : out.event.pool ≡ a.pool_key = rw k.event refl in
      let at_row : lookup l.positions out.event.position ≡ some a.position = rw at_position ex in
      let (x, e, mx) =
        partner MirrorsPosition l.positions s.positions out.event.position a.position at_row
          (m.positions out.event.position) in
      let row : MirrorsPosition out.position (claimed_row out.event x) = rw kept (record {
        pool = mx.pool;
        owner = mx.owner;
        position_id = mx.position_id;
        amount = mx.amount;
        weighted_amount = mx.weighted_amount;
        tier = mx.tier;
        lock_end = mx.lock_end;
      }) in
      let opened = position-Mirrors l s out.event.position out.position _ row m in
      let done =
        pool_mut-Mirrors _ _ out.event.pool id (count_claim out.event) a.pool out.pool
          (rw at_pool ep) (paid-MirrorsPool a now out h) opened in
      rw (fold_rewards_claimed-eq s id out.event x e)
        (moved-Mirrors l _ _ _ at_pool at_position done)

  withdrawn-MirrorsPool :
      (a : UnstakeAccounts) (now : ℤ) (amount : ℕ) (out : UnstakeOutcome)
      → unstake R T a now amount ≡ ok out
      → (x : PoolStats) → MirrorsPool a.pool x
      → MirrorsPool out.pool (count_unstake out.event a.position.weighted_amount x)
  withdrawn-MirrorsPool a now amount out h x mx =
      let o = unstake-Withdrawn R T a now amount out h in
      let kept = (update_rewards-Updated a.pool o.updated now o.update).frame in
      let settled = (settle-Settled _ a.position o.settled o.settlement).frame in
      let k = unstake-event R T a now amount out h in
      let pool = o.pool ∙ ap (λ u. shrunk u out.pool.total_staked out.pool.total_weighted) kept in
      rw k (record {
        authority = rw pool mx.authority;
        total_staked = ground (arith, mx.total_staked, o.staked, kept);
        total_weighted = ground (arith, mx.total_weighted, o.weighted, o.lighter, kept, settled);
        position_count = rw pool mx.position_count;
        reward_rate = rw pool mx.reward_rate;
        reward_period_end = rw pool mx.reward_period_end;
        total_rewards_funded = rw pool mx.total_rewards_funded;
        total_rewards_paid = rw pool mx.total_rewards_paid;
        paused = rw pool mx.paused;
        whole = mx.whole;
      })
    where
      shrunk : Pool → ℕ → ℕ → Pool
      shrunk p n w = record p { total_staked = n; total_weighted = w }

  pub unstaked-Mirrors :
      (l : Ledger) (s : Analytics) (id : EventId) (a : UnstakeAccounts) (now : ℤ) (amount : ℕ)
      (out : UnstakeOutcome)
      → lookup l.pools a.pool_key ≡ some a.pool
      → lookup l.positions a.position_key ≡ some a.position
      → unstake R T a now amount ≡ ok out
      → Mirrors l s
      → Mirrors
          (writes l a.pool_key out.pool a.position_key out.position)
          (fold_unstaked s id out.event)
  unstaked-Mirrors l s id a now amount out ep ex h m =
      let o = unstake-Withdrawn R T a now amount out h in
      let kept =
        o.position
        ∙ ap (λ u. left u out.position.amount out.position.weighted_amount)
            (settle-Settled _ a.position o.settled o.settlement).frame in
      let k = unstake-event R T a now amount out h in
      let at_position : out.event.position ≡ a.position_key = rw k refl in
      let at_pool : out.event.pool ≡ a.pool_key = rw k refl in
      let at_row : lookup l.positions out.event.position ≡ some a.position = rw at_position ex in
      let (x, e, mx) =
        partner MirrorsPosition l.positions s.positions out.event.position a.position at_row
          (m.positions out.event.position) in
      let row : MirrorsPosition out.position (unstaked_row out.event x) = rw k (record {
        pool = rw kept mx.pool;
        owner = rw kept mx.owner;
        position_id = rw kept mx.position_id;
        amount = refl;
        weighted_amount = refl;
        tier = rw kept mx.tier;
        lock_end = rw kept mx.lock_end;
      }) in
      let opened = position-Mirrors l s out.event.position out.position _ row m in
      let done =
        pool_mut-Mirrors _ _ out.event.pool id (count_unstake out.event x.weighted_amount) a.pool
          out.pool (rw at_pool ep)
          (rw mx.weighted_amount (withdrawn-MirrorsPool a now amount out h)) opened in
      rw (fold_unstaked-eq s id out.event x e) (moved-Mirrors l _ _ _ at_pool at_position done)
    where
      left : Position → ℕ → ℕ → Position
      left p n w = record p { amount = n; weighted_amount = w }

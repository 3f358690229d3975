-- ===== src/Indexer/Projection/Mirror/Admin.antt =====
-- The arms of `fold` of indexer/src/projection.rs for the events of the other instructions of
-- programs/staking.
use helix_protocol.Prelude.{
  ℕ, ◌≡◌, refl, ◌∙◌, ap, inl, inr, none, some, Bool, arith, ◌==◌, Bool-cases,
}
use helix_protocol.Prelude.Int.{ℤ}
use helix_protocol.Prelude.Fallible.{ok}
use helix_protocol.Anchor.{Pubkey, Runtime, TokenProgram}
use helix_protocol.Staking.Types.{Pool}
use helix_protocol.Staking.Events.{
  PositionClosed, RewardRateChanged, PoolPauseToggled, AuthorityTransferProposed,
  AuthorityTransferAccepted,
}
use helix_protocol.Staking.Withdraw.{ClosePositionAccounts, close_position}
use helix_protocol.Staking.Admin.{
  InitializePoolAccounts, InitializePoolOutcome, initialize_pool, FundRewardsAccounts,
  FundRewardsOutcome, fund_rewards, SetRewardRateAccounts, set_reward_rate, PoolSigner, set_paused,
  propose_authority, accept_authority,
}
use helix_protocol.Staking.Effects.Admin.{fund_rewards-Funded, set_reward_rate-Retuned}
use helix_protocol.Staking.State.Update.{update_rewards-Updated}
use helix_protocol.Indexer.Maps.{EventId, lookup, remove, lookup-insert}
use helix_protocol.Indexer.Projection.{Analytics}
use helix_protocol.Indexer.Projection.Staking.{
  fold_pool_initialized, fold_position_closed, fold_rewards_funded, fold_reward_rate_changed,
  fold_pool_pause_toggled, fold_authority_transfer_accepted,
}
use helix_protocol.Indexer.Projection.Mirror.{
  Ledger, opens_pool, MirrorsPool, MirrorsPosition, Both, Mirrors, insert-Both, remove-Both,
  partner, no_partner,
}
use helix_protocol.Indexer.Projection.Mirror.Events.{fund_rewards-event, set_reward_rate-event}
use helix_protocol.Indexer.Projection.Mirror.Pools.{pool_mut-Mirrors}
use helix_protocol.Indexer.Projection.Mirror.Frames.{
  fold_pool_initialized-eq, fold_position_closed-eq, fresh_pool, close_position-event,
  set_paused-frame, accept_authority-frame, propose_authority-frame,
}

module _ (R : Runtime) (T : TokenProgram) (l : Ledger) (s : Analytics) (id : EventId) where
  pub initialized-Mirrors :
      (a : InitializePoolAccounts) (now : ℤ) (out : InitializePoolOutcome)
      → lookup l.pools a.pool_key ≡ none
      → initialize_pool R a now ≡ ok out
      → Mirrors l s
      → Mirrors (opens_pool l a.pool_key out.pool) (fold_pool_initialized s out.event)
  initialized-Mirrors a now out absent h m =
      let (at_pool, row) = fresh_pool R a now out h in
      let unseen =
        no_partner MirrorsPool l.pools s.pools out.event.pool (rw at_pool absent)
          (m.pools out.event.pool) in
      rw (fold_pool_initialized-eq s out.event unseen, ← at_pool)
        (record {
          pools = insert-Both MirrorsPool l.pools s.pools out.event.pool out.pool _ row m.pools;
          positions = m.positions;
          complete = m.complete;
        })

  pub closed-Mirrors :
      (a : ClosePositionAccounts) (now : ℤ) (event : PositionClosed)
      → lookup l.positions a.position_key ≡ some a.position
      → close_position R a now ≡ ok event
      → Mirrors l s
      → Mirrors
          (record l { positions = remove l.positions a.position_key })
          (fold_position_closed s id event)
  closed-Mirrors a now event at h m =
      let at_position = close_position-event R a now event h in
      let (x, e, mx) =
        partner MirrorsPosition l.positions s.positions event.position a.position
          (rw at_position at) (m.positions event.position) in
      rw (fold_position_closed-eq s id event x e, ← at_position)
        (record {
          pools = m.pools;
          positions =
              remove-Both MirrorsPosition l.positions s.positions event.position m.positions;
          complete = m.complete;
        })

  pub funded-Mirrors :
      (a : FundRewardsAccounts) (now : ℤ) (amount : ℕ) (out : FundRewardsOutcome)
      → lookup l.pools a.pool_key ≡ some a.pool
      → fund_rewards R T a now amount ≡ ok out
      → Mirrors l s
      → Mirrors (opens_pool l a.pool_key out.pool) (fold_rewards_funded s id out.event)
  unfolding fold_rewards_funded
  funded-Mirrors a now amount out at h m =
      let (at_pool, total) = fund_rewards-event R T a now amount out h in
      let frame = (fund_rewards-Funded R T a now amount out h).pool in
      rw (at_pool, total)
        (pool_mut-Mirrors l s a.pool_key id
          (λ x. record x { total_rewards_funded = out.pool.total_rewards_funded }) a.pool out.pool
          at
          (λ x mx. record {
            authority = rw frame mx.authority;
            total_staked = rw frame mx.total_staked;
            total_weighted = rw frame mx.total_weighted;
            position_count = rw frame mx.position_count;
            reward_rate = rw frame mx.reward_rate;
            reward_period_end = rw frame mx.reward_period_end;
            total_rewards_funded = refl;
            total_rewards_paid = rw frame mx.total_rewards_paid;
            paused = rw frame mx.paused;
            whole = mx.whole;
          })
          m)

  pub retuned-Mirrors :
      (a : SetRewardRateAccounts) (now : ℤ) (rate : ℕ) (period_end : ℤ)
      (out : Pool × RewardRateChanged)
      → lookup l.pools a.pool_key ≡ some a.pool
      → set_reward_rate R a now rate period_end ≡ ok out
      → Mirrors l s
      → Mirrors (opens_pool l a.pool_key out.0) (fold_reward_rate_changed s id out.1)
  unfolding fold_reward_rate_changed
  retuned-Mirrors a now rate period_end out at h m =
      let (at_pool, new_rate, new_end) = set_reward_rate-event R a now rate period_end out h in
      let o = set_reward_rate-Retuned R a now rate period_end out h in
      let kept = (update_rewards-Updated a.pool o.updated now o.update).frame in
      let frame =
        o.pool
        ∙ ap (λ (p : Pool). record p { reward_rate = rate; reward_period_end = period_end }) kept in
      rw (at_pool, new_rate, new_end)
        (pool_mut-Mirrors l s a.pool_key id
          (λ x. record x { reward_rate = rate; reward_period_end = period_end }) a.pool out.0 at
          (λ x mx. record {
            authority = rw frame mx.authority;
            total_staked = rw frame mx.total_staked;
            total_weighted = rw frame mx.total_weighted;
            position_count = rw frame mx.position_count;
            reward_rate = rw frame refl;
            reward_period_end = inl (rw frame refl);
            total_rewards_funded = rw frame mx.total_rewards_funded;
            total_rewards_paid = rw frame mx.total_rewards_paid;
            paused = rw frame mx.paused;
            whole = mx.whole;
          })
          m)

  pub paused-Mirrors :
      (a : PoolSigner) (now : ℤ) (paused : Bool) (out : Pool × PoolPauseToggled)
      → lookup l.pools a.pool_key ≡ some a.pool
      → set_paused R a now paused ≡ ok out
      → Mirrors l s
      → Mirrors (opens_pool l a.pool_key out.0) (fold_pool_pause_toggled s id out.1)
  unfolding fold_pool_pause_toggled
  paused-Mirrors a now paused out at h m =
      let (at_pool, flag, frame) = set_paused-frame R a now paused out h in
      rw (at_pool, flag)
        (pool_mut-Mirrors l s a.pool_key id (λ x. record x { paused = paused }) a.pool out.0 at
          (λ x mx. record {
            authority = rw frame mx.authority;
            total_staked = rw frame mx.total_staked;
            total_weighted = rw frame mx.total_weighted;
            position_count = rw frame mx.position_count;
            reward_rate = rw frame mx.reward_rate;
            reward_period_end = rw frame mx.reward_period_end;
            total_rewards_funded = rw frame mx.total_rewards_funded;
            total_rewards_paid = rw frame mx.total_rewards_paid;
            paused = rw frame refl;
            whole = mx.whole;
          })
          m)

  pub accepted-Mirrors :
      (a : PoolSigner) (now : ℤ) (out : Pool × AuthorityTransferAccepted)
      → lookup l.pools a.pool_key ≡ some a.pool
      → accept_authority R a now ≡ ok out
      → Mirrors l s
      → Mirrors (opens_pool l a.pool_key out.0) (fold_authority_transfer_accepted s id out.1)
  unfolding fold_authority_transfer_accepted
  accepted-Mirrors a now out at h m =
      let (at_pool, frame) = accept_authority-frame R a now out h in
      rw at_pool (
        pool_mut-Mirrors l s a.pool_key id (λ x. record x { authority = some out.1.new_authority })
          a.pool out.0 at
          (λ x mx. record {
            authority = rw frame refl;
            total_staked = rw frame mx.total_staked;
            total_weighted = rw frame mx.total_weighted;
            position_count = rw frame mx.position_count;
            reward_rate = rw frame mx.reward_rate;
            reward_period_end = rw frame mx.reward_period_end;
            total_rewards_funded = rw frame mx.total_rewards_funded;
            total_rewards_paid = rw frame mx.total_rewards_paid;
            paused = rw frame mx.paused;
            whole = mx.whole;
          })
          m)

  -- The nomination of an authority is no part of the projection.
  pub proposed-Mirrors :
      (a : PoolSigner) (now : ℤ) (new : Pubkey) (out : Pool × AuthorityTransferProposed)
      → lookup l.pools a.pool_key ≡ some a.pool
      → propose_authority R a now new ≡ ok out
      → Mirrors l s
      → Mirrors (opens_pool l a.pool_key out.0) s
  proposed-Mirrors a now new out at h m = record {
    pools = λ k.
        rw (lookup-insert l.pools a.pool_key k out.0) (elim (Bool-cases (a.pool_key == k)) [
          | inl e ↦ rw e (nominated k (ground arith))
          | inr e ↦ rw e (m.pools k)
        ]);
    positions = m.positions;
    complete = m.complete;
  }
    where
      frame : out.0 ≡ record (a.pool) { pending_authority = some new }
      frame = propose_authority-frame R a now new out h

      nominated : (k : Pubkey) → a.pool_key ≡ k → Both MirrorsPool (some out.0) (lookup s.pools k)
      nominated k same =
          let (x, e, mx) =
            partner MirrorsPool l.pools s.pools k a.pool (rw (← same) at) (m.pools k) in
          rw (e, frame)
            (record {
              authority = mx.authority;
              total_staked = mx.total_staked;
              total_weighted = mx.total_weighted;
              position_count = mx.position_count;
              reward_rate = mx.reward_rate;
              reward_period_end = mx.reward_period_end;
              total_rewards_funded = mx.total_rewards_funded;
              total_rewards_paid = mx.total_rewards_paid;
              paused = mx.paused;
              whole = mx.whole;
            })

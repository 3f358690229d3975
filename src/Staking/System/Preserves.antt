-- ===== src/Staking/System/Preserves.antt =====
-- The books of a pool under each staking instruction.
use native.Mathlib.Nat.{mul-le-mul_right}
use helix_protocol.Prelude.{
  ℕ, ◌+◌, ◌*◌, ◌≤◌, ◌≡◌, sym, ap, subst, ◌∙◌, List, ◌∷◌, some, arith, Bool,
}
use helix_protocol.Prelude.Lists.{get_elem?, set, All-get_elem?}
use helix_protocol.Prelude.Int.{ℤ, gap}
use helix_protocol.Prelude.Fallible.{ok}
use helix_protocol.Anchor.{Pubkey, Runtime, TokenProgram, Transferred}
use helix_protocol.Staking.Types.{Pool, Position, LockTier, precision}
use helix_protocol.Staking.State.Update.{Updated, update_rewards-Updated, update_rewards-clock}
use helix_protocol.Staking.State.Settle.{owed, Settled, settle-Settled, Settled-owed}
use helix_protocol.Staking.State.Weight.{apply_weight-exact}
use helix_protocol.Staking.Stake.{StakeAccounts, StakeOutcome}
use helix_protocol.Staking.Withdraw.{UnstakeAccounts, UnstakeOutcome, ClaimAccounts, ClaimOutcome}
use helix_protocol.Staking.Admin.{
  SetRewardRateAccounts, PoolSigner, set_paused, propose_authority, accept_authority,
}
use helix_protocol.Staking.Events.{
  PoolPauseToggled, AuthorityTransferProposed, AuthorityTransferAccepted,
}
use helix_protocol.Staking.Effects.Stake.{Opened}
use helix_protocol.Staking.Effects.Withdraw.{Withdrawn, Claimed}
use helix_protocol.Staking.Effects.Admin.{Retuned}
use helix_protocol.Staking.Books.{IsSound, IsSolvent, update-IsSolvent}
use helix_protocol.Staking.Books.Change.{open-IsSolvent, set-IsSolvent}

module _ (T : TokenProgram) (xs : List Position) (rb : ℕ) where
  pub stake-IsSolvent :
      (a : StakeAccounts) (now : ℤ) (id amount : ℕ) (tier : LockTier) (out : StakeOutcome)
      → Opened T a now id amount tier out
      → IsSolvent a.pool xs a.stake_vault.amount rb
      → IsSolvent out.pool (out.position ∷ xs) out.stake_vault.amount rb
  stake-IsSolvent a now id amount tier out o v =
      let u = update_rewards-Updated a.pool o.updated now o.update in
      let v' = update-IsSolvent a.pool o.updated xs a.stake_vault.amount rb u v in
      let weighed = (apply_weight-exact tier out.position.amount o.weight).0 in
      rw o.pool (
        open-IsSolvent o.updated xs a.stake_vault.amount rb v' out.position out.stake_vault.amount
          o.watermark o.nothing_pending
          (o.id ∙ o.next_id ∙ sym (ap (λ (q : Pool). q.position_count) u.frame))
          (rw o.tier_kept weighed) o.received)

  pub unstake-IsSolvent :
      (a : UnstakeAccounts) (i : ℕ) (now : ℤ) (amount : ℕ) (out : UnstakeOutcome)
      → get_elem? xs i ≡ some a.position
      → Withdrawn T a now amount out
      → Transferred amount a.stake_vault a.owner_token_account out.stake_vault
          out.owner_token_account
      → IsSolvent a.pool xs a.stake_vault.amount rb
      → IsSolvent out.pool (set xs i out.position) out.stake_vault.amount rb
  unstake-IsSolvent a i now amount out at w moved v =
      subst (λ q. IsSolvent q (set xs i out.position) out.stake_vault.amount rb) same_pool
        (set-IsSolvent w.updated xs a.stake_vault.amount rb v' i a.position out.position
          out.pool.total_staked out.pool.total_weighted 0 out.stake_vault.amount rb at new_sound
          (ground (arith, z.frame)) (ground (arith, z.frame)) owes
          (ground (arith, z.frame, moved.debited)) (omega arith))
    where
      u : Updated a.pool w.updated
      u = update_rewards-Updated a.pool w.updated now w.update

      v' : IsSolvent w.updated xs a.stake_vault.amount rb
      v' = update-IsSolvent a.pool w.updated xs a.stake_vault.amount rb u v

      z : Settled w.updated.reward_per_token a.position w.settled
      z = settle-Settled w.updated.reward_per_token a.position w.settled w.settlement

      sound : IsSound w.updated.reward_per_token w.updated.position_count a.position
      sound = All-get_elem? _ xs i a.position v'.sound at

      same_pool :
          record w.updated {
            total_staked = out.pool.total_staked;
            total_weighted = out.pool.total_weighted;
            total_rewards_paid = w.updated.total_rewards_paid + 0;
          }
          ≡ out.pool
      same_pool = ground (arith, w.pool)

      new_sound : IsSound w.updated.reward_per_token w.updated.position_count out.position
      new_sound = record {
        behind = ground (arith, z.frame, w.position);
        weighed =
            ground
              (arith, w.position, apply_weight-exact w.settled.tier out.position.amount w.weight);
        numbered = ground (arith, z.frame, w.position, sound.numbered);
      }

      owes :
          owed w.updated.reward_per_token out.position + 0 * precision
          ≤ owed w.updated.reward_per_token a.position
      owes =
          Settled-owed w.updated.reward_per_token 0 a.position w.settled out.position z
            (ground (arith, w.position)) (ground (arith, w.position, z.frame))

module _ (T : TokenProgram) (xs : List Position) (sb : ℕ) where
  pub claim-IsSolvent :
      (a : ClaimAccounts) (i : ℕ) (now : ℤ) (out : ClaimOutcome)
      → get_elem? xs i ≡ some a.position
      → (c : Claimed T a now out)
      → Transferred c.settled.pending_rewards a.reward_vault a.owner_reward_account out.reward_vault
          out.owner_reward_account
      → IsSolvent a.pool xs sb a.reward_vault.amount
      → IsSolvent out.pool (set xs i out.position) sb out.reward_vault.amount
  claim-IsSolvent a i now out at c moved v =
      subst (λ q. IsSolvent q (set xs i out.position) sb out.reward_vault.amount) (sym c.pool)
        (set-IsSolvent c.updated xs sb a.reward_vault.amount v' i a.position out.position
          c.updated.total_staked c.updated.total_weighted c.settled.pending_rewards sb
          out.reward_vault.amount at new_sound (ground (arith, z.frame, c.position))
          (ground (arith, z.frame, c.position)) owes (ground (arith, z.frame, c.position))
          moved.debited)
    where
      v' : IsSolvent c.updated xs sb a.reward_vault.amount
      v' =
          update-IsSolvent a.pool c.updated xs sb a.reward_vault.amount
            (update_rewards-Updated a.pool c.updated now c.update) v

      z : Settled c.updated.reward_per_token a.position c.settled
      z = settle-Settled c.updated.reward_per_token a.position c.settled c.settlement

      sound : IsSound c.updated.reward_per_token c.updated.position_count a.position
      sound = All-get_elem? _ xs i a.position v'.sound at

      new_sound : IsSound c.updated.reward_per_token c.updated.position_count out.position
      new_sound = record {
        behind = ground (arith, z.frame, c.position);
        weighed = ground (arith, z.frame, c.position, sound.weighed);
        numbered = ground (arith, z.frame, c.position, sound.numbered);
      }

      owes :
          owed c.updated.reward_per_token out.position + c.settled.pending_rewards * precision
          ≤ owed c.updated.reward_per_token a.position
      owes =
          Settled-owed c.updated.reward_per_token c.settled.pending_rewards a.position c.settled
            out.position z (ground (arith, c.position)) (ground (arith, c.position, z.frame))

module _ (xs : List Position) (sb : ℕ) where
  -- A new rate is covered from the moment that it is set.
  pub retune-IsSolvent :
      (a : SetRewardRateAccounts) (now : ℤ) (rate : ℕ) (period_end : ℤ) (out : Pool)
      → Retuned a now rate period_end out
      → IsSolvent a.pool xs sb a.reward_vault.amount
      → IsSolvent out xs sb a.reward_vault.amount
  retune-IsSolvent a now rate period_end out r v = rw r.pool (record {
    staked = v'.staked;
    backed = v'.backed;
    weighted = v'.weighted;
    sound = v'.sound;
    solvent = v'.solvent;
    bounded = v'.bounded;
    funded = omega (
      arith,
      r.covered,
      mul-le-mul_right {m = gap r.updated.last_update_ts period_end} {n = gap now period_end} rate
          (omega (arith, update_rewards-clock a.pool r.updated now r.update)),
    );
  })
    where
      v' : IsSolvent r.updated xs sb a.reward_vault.amount
      v' =
          update-IsSolvent a.pool r.updated xs sb a.reward_vault.amount
            (update_rewards-Updated a.pool r.updated now r.update) v

pub set_paused-frame :
    (R : Runtime) (a : PoolSigner) (now : ℤ) (paused : Bool) (out : Pool × PoolPauseToggled)
    → set_paused R a now paused ≡ ok out
    → out.0 ≡ record (a.pool) { paused = out.0.paused }
unfolding set_paused
set_paused-frame R a now paused out h = ground arith

pub propose_authority-frame :
    (R : Runtime) (a : PoolSigner) (now : ℤ) (new : Pubkey) (out : Pool × AuthorityTransferProposed)
    → propose_authority R a now new ≡ ok out
    → out.0 ≡ record (a.pool) { pending_authority = out.0.pending_authority }
unfolding propose_authority
propose_authority-frame R a now new out h = ground arith

pub accept_authority-frame :
    (R : Runtime) (a : PoolSigner) (now : ℤ) (out : Pool × AuthorityTransferAccepted)
    → accept_authority R a now ≡ ok out
    → out.0
      ≡ record (a.pool) { authority = out.0.authority; pending_authority = out.0.pending_authority }
unfolding accept_authority
accept_authority-frame R a now out h = ground arith

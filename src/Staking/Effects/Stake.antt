-- ===== src/Staking/Effects/Stake.antt =====
-- The effect of a successful `stake`.
use helix_protocol.Prelude.{
  ℕ, ◌+◌, ◌-◌, ◌≤◌, ◌<◌, ◌≡◌, inl, inr, false, some, arith, Option-cases, Option,
}
use helix_protocol.Prelude.Int.{ℤ, ◌+ℤ◌}
use helix_protocol.Prelude.Fallible.{ok, Result-cases, >>-eq-ok}
use helix_protocol.Anchor.{Runtime, TokenAccount, TokenProgram}
use helix_protocol.Staking.Types.{Pool, LockTier, min_stake_amount}
use helix_protocol.Staking.State.{update_rewards, apply_weight, duration}
use helix_protocol.Staking.Stake.{StakeAccounts, StakeOutcome, check_stake, stake_handler, stake}

pub record Opened (T : TokenProgram) (a : StakeAccounts) (now : ℤ) (position_id amount : ℕ)
    (tier : LockTier) (out : StakeOutcome) : Type 0 where
  pub updated : Pool
  pub update : update_rewards a.pool now ≡ ok updated
  pub running : a.pool.paused ≡ false
  pub enough : min_stake_amount ≤ amount
  pub next_id : position_id ≡ a.pool.position_count
  pub transfer :
      T.transfer_checked a.owner_token_account a.stake_mint a.stake_vault a.owner amount
        a.stake_mint.decimals
      ≡ some (out.owner_token_account, out.stake_vault)
  pub received : out.stake_vault.amount ≡ a.stake_vault.amount + out.position.amount
  pub positive : 0 < out.position.amount
  pub weight : apply_weight tier out.position.amount ≡ ok out.position.weighted_amount
  pub pool : out.pool ≡ record updated {
    total_staked = updated.total_staked + out.position.amount;
    total_weighted = updated.total_weighted + out.position.weighted_amount;
    position_count = updated.position_count + 1;
  }
  pub id : out.position.position_id ≡ position_id
  pub tier_kept : out.position.tier ≡ tier
  pub lock : out.position.lock_end ≡ now +ℤ duration tier
  pub watermark : out.position.reward_per_token_paid ≡ updated.reward_per_token
  pub nothing_pending : out.position.pending_rewards ≡ 0

module _ (R : Runtime) (T : TokenProgram) (a : StakeAccounts) (now : ℤ) (id amount : ℕ)
    (tier : LockTier) (out : StakeOutcome) where
  opened :
      (updated : Pool) (sender vault : TokenAccount) (w : ℕ)
      → update_rewards a.pool now ≡ ok updated
      → T.transfer_checked a.owner_token_account a.stake_mint a.stake_vault a.owner amount
          a.stake_mint.decimals
        ≡ some (sender, vault)
      → apply_weight tier (vault.amount - a.stake_vault.amount) ≡ ok w
      → stake_handler R T a now id amount tier ≡ ok out
      → Opened T a now id amount tier out
  unfolding stake_handler
  opened updated sender vault w eu et ew h = record {
    updated = updated;
    update = eu;
    running = ground arith;
    enough = ground arith;
    next_id = ground arith;
    transfer = ground arith;
    received = ground arith;
    positive = ground arith;
    weight = ground arith;
    pool = ground arith;
    id = ground arith;
    tier_kept = ground arith;
    lock = ground arith;
    watermark = ground arith;
    nothing_pending = ground arith;
  }

  pub stake_handler-Opened :
      stake_handler R T a now id amount tier ≡ ok out → Opened T a now id amount tier out
  unfolding stake_handler
  stake_handler-Opened h = elim (Result-cases (update_rewards a.pool now)) [
    | inl (f, e) ↦ ground arith
    | inr (updated, eu) ↦ elim (Option-cases moved) [
      | inl e ↦ ground arith
      | inr ((sender, vault), et) ↦
          elim (Result-cases (apply_weight tier (vault.amount - a.stake_vault.amount))) [
            | inl (f, e) ↦ ground arith
            | inr (w, ew) ↦ opened updated sender vault w eu et ew h
          ]
    ]
  ]
    where
      moved : Option (TokenAccount × TokenAccount)
      moved =
          T.transfer_checked a.owner_token_account a.stake_mint a.stake_vault a.owner amount
            a.stake_mint.decimals

  -- A successful `stake` is on an unpaused pool, of at least the minimum and with the next
  -- position id; it credits exactly what the vault received, adds that and its weight to the
  -- totals of the updated pool, and opens the position at the pool's accumulator with the tier's
  -- lock and no pending reward.
  pub stake-Opened : stake R T a now id amount tier ≡ ok out → Opened T a now id amount tier out
  unfolding stake
  stake-Opened h = stake_handler-Opened (>>-eq-ok (check_stake R a id) _ h).1

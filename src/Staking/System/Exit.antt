-- ===== src/Staking/System/Exit.antt =====
-- The withdrawal of unlocked principal: the arithmetic of `unstake` in
-- programs/staking/src/instructions/unstake.rs.
use native.Mathlib.Nat.{mul-le-mul_right, div-le_self}
use helix_protocol.Prelude.{
  ℕ, ◌+◌, ◌-◌, ◌*◌, ◌/◌, ◌≤◌, ◌<◌, ◌≡◌, some, List, arith, ap, Bool-cases, ltb, ◌&&◌, inl, inr,
}
use helix_protocol.Prelude.Lists.{get_elem?, le-sum_by, All-get_elem?}
use helix_protocol.Prelude.Int.{ℤ, pos, ltb_ℤ, min_ℤ, ◌≤ℤ◌, ◌<ℤ◌, gap, ◌-ℤ◌}
use helix_protocol.Prelude.Machine.{u64_max, i64_max, as_u128--ℤ}
use helix_protocol.Prelude.Fallible.{ok}
use helix_protocol.Anchor.{TokenAccount, TokenProgram}
use helix_protocol.Staking.Withdraw.{UnstakeAccounts, UnstakeOutcome, unstake_handler}
use helix_protocol.Staking.Types.{Pool, Position, LockTier, flexible, precision}
use helix_protocol.Staking.State.{
  accrue, update_rewards, earned, settle, apply_weight, advance_clock, is_unlocked,
}
use helix_protocol.Staking.State.Update.{Updated, update_rewards-Updated, remaining_emission}
use helix_protocol.Staking.State.Settle.{owed, Settled, settle-Settled}
use helix_protocol.Staking.State.Weight.{exact_weight, exact_weight_mono}
use helix_protocol.Staking.Books.{IsSolvent, update-IsSolvent}

accrue_total :
    (p : Pool) (now : ℤ)
    → pos 0 ≤ℤ p.last_update_ts
    → p.last_update_ts <ℤ now
    → now ≤ℤ pos i64_max
    → p.reward_per_token ≤ p.total_rewards_accrued * precision
    → p.total_rewards_accrued + gap p.last_update_ts now * p.reward_rate ≤ u64_max
    → (q : Pool) × (accrue p now ≡ ok q)
unfolding accrue ◌-ℤ◌
accrue_total p now after_epoch later in_range bounded fits = (
  record p {
    reward_per_token = p.reward_per_token + emitted * precision / p.total_weighted;
    total_rewards_accrued = p.total_rewards_accrued + emitted;
  },
  ground (
    arith,
    as_u128--ℤ now p.last_update_ts (omega arith),
    div-le_self (emitted * precision) p.total_weighted,
  ),
)
  where
    emitted : ℕ
    emitted = gap p.last_update_ts now * p.reward_rate

-- The times that a running chain shows: the pool was last updated after the epoch, and its period
-- ends within the range of its type. The counter of emitted rewards has room for the whole period.
pub record Fits (p : Pool) : Type 0 where
  pub after_epoch : pos 0 ≤ℤ p.last_update_ts
  pub period : p.reward_period_end ≤ℤ pos i64_max
  pub room : p.total_rewards_accrued + remaining_emission p p.last_update_ts ≤ u64_max

emitted-le-remaining : (last now end : ℤ) (r : ℕ) → gap last (min_ℤ now end) * r ≤ gap last end * r
emitted-le-remaining last now end r =
    mul-le-mul_right {m = gap last (min_ℤ now end)} {n = gap last end} r (ground arith)

-- In a solvent pool whose clock and reward counter are within range, the reward update succeeds at
-- every time: no product or sum in it overflows.
pub update_rewards_total :
    (p : Pool) (xs : List Position) (sb rb : ℕ) (now : ℤ)
    → IsSolvent p xs sb rb
    → Fits p
    → (q : Pool) × (update_rewards p now ≡ ok q)
unfolding update_rewards
update_rewards_total p xs sb rb now v f =
    elim (Bool-cases (ltb_ℤ p.last_update_ts now' && ltb 0 p.total_weighted)) [
      | inl due ↦
          let (r, e) =
            accrue_total p now' f.after_epoch (ground arith) (ground (arith, f.period)) v.bounded (
              omega (
                arith,
                f.room,
                emitted-le-remaining p.last_update_ts now p.reward_period_end p.reward_rate,
              )) in
          (advance_clock r now, ground arith)
      | inr idle ↦ (advance_clock p now, ground arith)
    ]
  where
    now' : ℤ
    now' = min_ℤ now p.reward_period_end

-- A position of a solvent pool can be settled.
pub settle_total :
    (p : Pool) (xs : List Position) (sb rb i : ℕ) (x : Position)
    → IsSolvent p xs sb rb
    → get_elem? xs i ≡ some x
    → p.total_rewards_accrued ≤ u64_max
    → (x' : Position) × (settle x p.reward_per_token ≡ ok x')
unfolding settle earned
settle_total p xs sb rb i x v at fits = (
  record x {
    pending_rewards =
        x.weighted_amount * (p.reward_per_token - x.reward_per_token_paid) / precision
        + x.pending_rewards;
    reward_per_token_paid = p.reward_per_token;
  },
  ground (
    arith,
    (All-get_elem? _ xs i x v.sound at).behind,
    le-sum_by (owed p.reward_per_token) xs i x at,
    v.solvent,
  ),
)

apply_weight_total :
    (tier : LockTier) (a b : ℕ)
    → a ≤ b
    → b ≤ u64_max
    → exact_weight tier b ≤ u64_max
    → apply_weight tier a ≡ ok (exact_weight tier a)
unfolding apply_weight
apply_weight_total flexible a b le fits h = ground arith
apply_weight_total _ a b le fits h = ground arith

update_rewards-room : (p q : Pool) → Updated p q → Fits p → q.total_rewards_accrued ≤ u64_max
update_rewards-room p q u f = rw u.frame (omega (arith, f.room, u.budget))

-- In a solvent pool whose clock and reward counter are within range, an unlocked position can
-- withdraw any positive part of its principal whenever the token program moves the tokens: no
-- counter of the pool and no rounding stops it, whether or not the pool is paused.
pub unstake_succeeds :
    (T : TokenProgram) (a : UnstakeAccounts) (xs : List Position) (rb i : ℕ) (now : ℤ) (amount : ℕ)
    (vault receiver : TokenAccount)
    → IsSolvent a.pool xs a.stake_vault.amount rb
    → Fits a.pool
    → get_elem? xs i ≡ some a.position
    → a.position.amount ≤ u64_max
    → a.position.weighted_amount ≤ u64_max
    → a.position.lock_end ≤ℤ now
    → 0 < amount
    → amount ≤ a.position.amount
    → T.transfer_checked a.stake_vault a.stake_mint a.owner_token_account a.vault_authority amount
        a.stake_mint.decimals
      ≡ some (vault, receiver)
    → (out : UnstakeOutcome) × (unstake_handler T a now amount ≡ ok out)
unfolding unstake_handler is_unlocked
unstake_succeeds T a xs rb i now amount vault receiver v f at fa fw unlocked positive enough et = (
  record {
    pool = record q {
      total_staked = q.total_staked - amount;
      total_weighted = q.total_weighted - (x.weighted_amount - new_weight);
    };
    position = record x { amount = x.amount - amount; weighted_amount = new_weight };
    stake_vault = vault;
    owner_token_account = receiver;
    event = record {
      pool = a.pool_key;
      position = a.position_key;
      owner = a.owner;
      amount = amount;
      remaining = x.amount - amount;
      weighted_amount = new_weight;
      timestamp = now;
    };
  },
  ground (
    arith,
    eq,
    ex,
    same_amount,
    same_weight,
    lighter,
    weighs,
    le-sum_by (λ (s : Position). s.amount) xs i a.position at,
    le-sum_by (λ (s : Position). s.weighted_amount) xs i a.position at,
    v'.staked,
    v'.weighted,
  ),
)
  where
    update : (q : Pool) × (update_rewards a.pool now ≡ ok q)
    update = update_rewards_total a.pool xs a.stake_vault.amount rb now v f

    q : Pool
    q = update.0

    eq : update_rewards a.pool now ≡ ok q
    eq = update.1

    v' : IsSolvent q xs a.stake_vault.amount rb
    v' =
        update-IsSolvent a.pool q xs a.stake_vault.amount rb
          (update_rewards-Updated a.pool q now eq) v

    settlement : (x : Position) × (settle a.position q.reward_per_token ≡ ok x)
    settlement =
        settle_total q xs a.stake_vault.amount rb i a.position v' at
          (update_rewards-room a.pool q (update_rewards-Updated a.pool q now eq) f)

    x : Position
    x = settlement.0

    ex : settle a.position q.reward_per_token ≡ ok x
    ex = settlement.1

    z : Settled q.reward_per_token a.position x
    z = settle-Settled q.reward_per_token a.position x ex

    same_amount : x.amount ≡ a.position.amount
    same_amount = ap (λ (s : Position). s.amount) z.frame

    same_weight : x.weighted_amount ≡ a.position.weighted_amount
    same_weight = ap (λ (s : Position). s.weighted_amount) z.frame

    new_weight : ℕ
    new_weight = exact_weight x.tier (x.amount - amount)

    weighed : x.weighted_amount ≡ exact_weight x.tier x.amount
    weighed = ground (arith, z.frame, (All-get_elem? _ xs i a.position v'.sound at).weighed)

    lighter : new_weight ≤ x.weighted_amount
    lighter = rw weighed (exact_weight_mono x.tier (x.amount - amount) x.amount (omega arith))

    weighs : apply_weight x.tier (x.amount - amount) ≡ ok new_weight
    weighs =
        apply_weight_total x.tier (x.amount - amount) x.amount (omega arith)
          (omega (arith, same_amount)) (omega (arith, weighed, same_weight))

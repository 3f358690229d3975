-- ===== src/Staking/State.antt =====
-- The methods of programs/staking/src/state.rs: the lock tiers, the reward accumulator of a pool
-- and the settlement of a position. Numbers are `u64` and `u128` values, times `i64` values.
pub mod Update
pub mod Settle
pub mod Weight
use helix_protocol.Prelude.{ℕ, ◌*◌, ◌/◌, Bool, ◌&&◌, ltb, ◌==◌, if◌then◌else◌}
use helix_protocol.Prelude.Int.{ℤ, pos, ◌-ℤ◌, ltb_ℤ, leb_ℤ, min_ℤ}
use helix_protocol.Prelude.Machine.{
  u64_max, u128_max, within, checked_add, checked_sub, checked_mul, within_i64, checked_sub_i64,
  as_u128,
}
use helix_protocol.Prelude.Fallible.{panicked, Result, ok, ◌>>=◌, ◌>>◌, require, ok_or, or_abort}
use helix_protocol.Staking.Types.{
  LockTier, flexible, bronze, silver, gold, Pool, Position, StakingError, math_overflow,
  position_not_empty, unclaimed_rewards, precision, bps_denominator, seconds_per_day,
}

abbrev pub Fallible {ℓ} : Type ℓ → Type ℓ
Fallible A = Result StakingError A

-- `LockTier::duration`.
unfoldable pub duration : LockTier → ℤ
duration flexible = pos 0
duration bronze = pos (30 * seconds_per_day)
duration silver = pos (90 * seconds_per_day)
duration gold = pos (180 * seconds_per_day)

-- `LockTier::weight_bps`.
unfoldable pub weight_bps : LockTier → ℕ
weight_bps flexible = 10_000
weight_bps bronze = 12_500
weight_bps silver = 15_000
weight_bps gold = 20_000

-- `LockTier::apply_weight`.
unfoldable pub apply_weight : LockTier → ℕ → Fallible ℕ
unfolding weight_bps
apply_weight tier amount = do
  product ← ok_or (checked_mul u128_max amount (weight_bps tier)) math_overflow
  ok_or (within u64_max (product / bps_denominator)) math_overflow

-- The body of the first `if` of `Pool::update_rewards`.
unfoldable pub accrue : Pool → ℤ → Fallible Pool
accrue p effective_now = do
  difference ← ok_or (checked_sub_i64 effective_now p.last_update_ts) math_overflow
  emitted ← ok_or (checked_mul u128_max (as_u128 difference) p.reward_rate) math_overflow
  scaled ← ok_or (checked_mul u128_max emitted precision) math_overflow
  reward_per_token ←
      ok_or (checked_add u128_max p.reward_per_token (scaled / p.total_weighted)) math_overflow
  booked ← ok_or (within u64_max emitted) math_overflow
  accrued ← ok_or (checked_add u64_max p.total_rewards_accrued booked) math_overflow
  ok (record p { reward_per_token = reward_per_token; total_rewards_accrued = accrued })

-- The second `if` of `Pool::update_rewards`.
unfoldable pub advance_clock : Pool → ℤ → Pool
advance_clock p now = if ltb_ℤ p.last_update_ts now then record p { last_update_ts = now } else p

-- `Pool::update_rewards`.
unfoldable pub update_rewards : Pool → ℤ → Fallible Pool
update_rewards p now = do
  let effective_now = min_ℤ now p.reward_period_end
  p' ←
      if ltb_ℤ p.last_update_ts effective_now && ltb 0 p.total_weighted
      then accrue p effective_now
      else ok p
  ok (advance_clock p' now)

-- `Pool::unpaid_liability`.
unfoldable pub unpaid_liability : Pool → Fallible ℕ
unpaid_liability p = ok_or (checked_sub p.total_rewards_accrued p.total_rewards_paid) math_overflow

-- `Pool::emission_for`. The subtraction of the two times is unchecked, so it panics on overflow.
unfoldable pub emission_for : Pool → ℕ → ℤ → Fallible ℕ
emission_for p rate from = if leb_ℤ p.reward_period_end from then ok 0 else (do
  difference ← or_abort (within_i64 (p.reward_period_end -ℤ from)) panicked
  total ← ok_or (checked_mul u128_max (as_u128 difference) rate) math_overflow
  ok_or (within u64_max total) math_overflow)

-- `Position::earned`.
unfoldable pub earned : Position → ℕ → Fallible ℕ
earned s reward_per_token = do
  delta ← ok_or (checked_sub reward_per_token s.reward_per_token_paid) math_overflow
  product ← ok_or (checked_mul u128_max s.weighted_amount delta) math_overflow
  total ← ok_or (checked_add u128_max (product / precision) s.pending_rewards) math_overflow
  ok_or (within u64_max total) math_overflow

-- `Position::settle`.
unfoldable pub settle : Position → ℕ → Fallible Position
settle s reward_per_token = do
  pending ← earned s reward_per_token
  ok (record s { pending_rewards = pending; reward_per_token_paid = reward_per_token })

-- `Position::is_unlocked`.
unfoldable pub is_unlocked : Position → ℤ → Bool
is_unlocked s now = leb_ℤ s.lock_end now

-- `Position::can_vote_until`.
unfoldable pub can_vote_until : Position → ℤ → Bool
can_vote_until s voting_ends_at = leb_ℤ voting_ends_at s.lock_end

-- `Position::ensure_closable`.
unfoldable pub ensure_closable : Position → Fallible (Unit {0})
ensure_closable s = do
  require (s.amount == 0 && s.weighted_amount == 0) position_not_empty
  require (s.pending_rewards == 0) unclaimed_rewards

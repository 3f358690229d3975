-- ===== src/Staking/State/Update.antt =====
-- `Pool::update_rewards` of programs/staking/src/state.rs: what it emits and what it distributes.
use helix_protocol.Prelude.{
  ℕ, ◌+◌, ◌*◌, ◌/◌, ◌≤◌, ◌≡◌, inl, inr, true, ◌&&◌, ltb, arith, Bool-cases, Bool, subst,
  if◌then◌else◌,
}
use native.Mathlib.Nat.{mul-le-mul_right, div-le_self}
use helix_protocol.Prelude.Int.{ℤ, ◌≤ℤ◌, gap, ltb_ℤ, min_ℤ}
use helix_protocol.Prelude.Machine.{as_u128--ℤ}
use helix_protocol.Prelude.Fallible.{ok, Result-cases}
use helix_protocol.Staking.Types.{Pool, precision}
use helix_protocol.Staking.State.{accrue, advance_clock, update_rewards}

-- One accrual over `elapsed` seconds.
accrue_lem :
    (p q : Pool) (now : ℤ)
    → p.last_update_ts ≤ℤ now
    → accrue p now ≡ ok q
    → let emitted = gap p.last_update_ts now * p.reward_rate in
      q ≡ record p {
        reward_per_token = p.reward_per_token + emitted * precision / p.total_weighted;
        total_rewards_accrued = p.total_rewards_accrued + emitted;
      }
unfolding accrue
accrue_lem p q now le h = ground (arith, as_u128--ℤ now p.last_update_ts le)

-- The reward that the pool emits from time `t` to the end of its period, at its rate.
abbrev pub remaining_emission : Pool → ℤ → ℕ
remaining_emission p t = gap t p.reward_period_end * p.reward_rate

-- What an update leaves: `gain` per unit of weight, `emitted` in all, the clock at `clock`.
pub record Updated (p : Pool) (q : Pool) : Type 0 where
  pub gain : ℕ
  pub emitted : ℕ
  pub clock : ℤ
  pub frame : q ≡ record p {
    reward_per_token = p.reward_per_token + gain;
    total_rewards_accrued = p.total_rewards_accrued + emitted;
    last_update_ts = clock;
  }
  pub distributed : gain * p.total_weighted ≤ emitted * precision
  pub limited : gain ≤ emitted * precision
  pub budget : emitted + remaining_emission p clock ≤ remaining_emission p p.last_update_ts

abbrev later : ℤ → ℤ → ℤ
later a b = if ltb_ℤ a b then b else a

-- Within the period, the time that has passed and the time that is left add up to no more than
-- what was left before.
gap-later : (last now end : ℤ) → gap last (min_ℤ now end) + gap (later last now) end ≤ gap last end
gap-later last now end = ground arith

div-mul-le : (a w : ℕ) → a / w * w ≤ a
div-mul-le a w = grind arith

mul_budget : (x y z r : ℕ) → x + y ≤ z → x * r + y * r ≤ z * r
mul_budget x y z r h = omega (arith, mul-le-mul_right {m = x + y} {n = z} r h)

accruing :
    (p q : Pool) (now : ℤ)
    → ltb_ℤ p.last_update_ts (min_ℤ now p.reward_period_end) ≡ true
    → accrue p (min_ℤ now p.reward_period_end) ≡ ok q
    → Updated p (advance_clock q now)
unfolding advance_clock
accruing p q now due h = record {
  gain = emitted * precision / p.total_weighted;
  emitted = emitted;
  clock = later p.last_update_ts now;
  frame = rw (accrue_lem p q now' (ground arith) h) (ground arith);
  distributed = div-mul-le (emitted * precision) p.total_weighted;
  limited = div-le_self (emitted * precision) p.total_weighted;
  budget =
      mul_budget (gap p.last_update_ts now') (gap (later p.last_update_ts now) p.reward_period_end)
        (gap p.last_update_ts p.reward_period_end) p.reward_rate
        (gap-later p.last_update_ts now p.reward_period_end);
}
  where
    now' : ℤ
    now' = min_ℤ now p.reward_period_end

    emitted : ℕ
    emitted = gap p.last_update_ts now' * p.reward_rate

idle : (p : Pool) (now : ℤ) → Updated p (advance_clock p now)
unfolding advance_clock
idle p now = record {
  gain = 0;
  emitted = 0;
  clock = later p.last_update_ts now;
  frame = ground arith;
  distributed = omega arith;
  limited = omega arith;
  budget = omega (
    arith,
    mul-le-mul_right {m = left} {n = gap p.last_update_ts p.reward_period_end} p.reward_rate
        (ground arith),
  );
}
  where
    left : ℕ
    left = gap (later p.last_update_ts now) p.reward_period_end

pub update_rewards-Updated : (p q : Pool) (now : ℤ) → update_rewards p now ≡ ok q → Updated p q
unfolding update_rewards
update_rewards-Updated p q now h = elim (Bool-cases due) [
  | inl yes_due ↦ elim (Result-cases (accrue p now')) [
    | inl (f, e) ↦ ground arith
    | inr (r, e) ↦ subst (Updated p) (ground arith) (accruing p r now (ground arith) e)
  ]
  | inr not_due ↦ subst (Updated p) (ground arith) (idle p now)
]
  where
    now' : ℤ
    now' = min_ℤ now p.reward_period_end

    due : Bool
    due = ltb_ℤ p.last_update_ts now' && ltb 0 p.total_weighted

advance_clock-le : (p : Pool) (now : ℤ) → now ≤ℤ (advance_clock p now).last_update_ts
unfolding advance_clock
advance_clock-le p now = ground arith

-- After an update the clock of the pool stands at `now`, or later.
pub update_rewards-clock :
    (p q : Pool) (now : ℤ) → update_rewards p now ≡ ok q → now ≤ℤ q.last_update_ts
unfolding update_rewards
update_rewards-clock p q now h = elim (Result-cases (accrue p (min_ℤ now p.reward_period_end))) [
  | inl (f, e) ↦ ground (arith, advance_clock-le p now)
  | inr (r, e) ↦ ground (arith, advance_clock-le p now, advance_clock-le r now)
]

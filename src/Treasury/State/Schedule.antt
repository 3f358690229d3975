-- ===== src/Treasury/State/Schedule.antt =====
-- The vesting schedule against its exact value: bounds and monotonicity.
use native.Mathlib.Nat.{mul-le-mul_left, div-le_of_le-mul}
use helix_protocol.Prelude.{ℕ, ◌*◌, ◌/◌, ◌≤◌, ◌≡◌, inl, inr, arith, if◌then◌else◌, Bool-cases}
use helix_protocol.Prelude.Int.{ℤ, ◌-ℤ◌, ◌≤ℤ◌, gap, ltb_ℤ, leb_ℤ}
use helix_protocol.Prelude.Machine.{as_u128--ℤ}
use helix_protocol.Prelude.Fallible.{ok}
use helix_protocol.Treasury.Types.{VestingStream}
use helix_protocol.Treasury.State.{vesting_time, vested_between, vested_at}

-- The amount that has vested at time `t`, on paper: nothing before the cliff, all from the end on,
-- and in between the part of the time that has passed, rounded down.
abbrev pub schedule : VestingStream → ℤ → ℕ
schedule s t =
    if ltb_ℤ t s.cliff_ts
    then 0
    else if leb_ℤ s.end_ts t
    then s.total_amount
    else s.total_amount * gap s.start_ts t / gap s.start_ts s.end_ts

pub record Ordered (s : VestingStream) : Type 0 where
  pub cliff_after : s.start_ts ≤ℤ s.cliff_ts
  pub end_after : s.cliff_ts ≤ℤ s.end_ts

vested_between-exact :
    (s : VestingStream) (t : ℤ) {n : ℕ}
    → s.start_ts ≤ℤ t
    → t ≤ℤ s.end_ts
    → vested_between s t ≡ ok n
    → n ≡ s.total_amount * gap s.start_ts t / gap s.start_ts s.end_ts
unfolding vested_between ◌-ℤ◌
vested_between-exact s t a b h =
    ground (arith, as_u128--ℤ t s.start_ts a, as_u128--ℤ s.end_ts s.start_ts (omega arith))

-- Where it gives a value, the code computes the schedule.
pub vested_at-exact :
    (s : VestingStream) (now : ℤ) {n : ℕ}
    → Ordered s
    → vested_at s now ≡ ok n
    → n ≡ schedule s (vesting_time s now)
unfolding vested_at
vested_at-exact s now {n} o h = elim (Bool-cases (ltb_ℤ t s.cliff_ts)) [
  | inl early ↦ ground arith
  | inr reached ↦ elim (Bool-cases (leb_ℤ s.end_ts t)) [
    | inl over ↦ ground arith
    | inr running ↦
        let between : vested_between s t ≡ ok n = ground arith in
        ground (
          arith,
          vested_between-exact s t {n = n} (ground (arith, o.cliff_after)) (ground arith) between,
        )
  ]
]
  where
    t : ℤ
    t = vesting_time s now

pub scaled-le : (a x y : ℕ) → x ≤ y → a * x / y ≤ a
scaled-le a x y h = div-le_of_le-mul y (omega (arith, mul-le-mul_left {m = x} {n = y} a h))

div_mono : (a b k : ℕ) → a ≤ b → a / k ≤ b / k
div_mono a b k h = grind arith

-- The schedule gives no more than the total.
pub schedule-le : (s : VestingStream) (t : ℤ) → schedule s t ≤ s.total_amount
schedule-le s t = elim (Bool-cases (leb_ℤ s.end_ts t)) [
  | inl over ↦ ground arith
  | inr running ↦
      ground (
        arith,
        scaled-le s.total_amount (gap s.start_ts t) (gap s.start_ts s.end_ts) (ground arith),
      )
]

-- It never falls.
pub schedule_mono : (s : VestingStream) (a b : ℤ) → a ≤ℤ b → schedule s a ≤ schedule s b
schedule_mono s a b h = ground (
  arith,
  scaled-le s.total_amount (gap s.start_ts a) (gap s.start_ts s.end_ts),
  div_mono (s.total_amount * gap s.start_ts a) (s.total_amount * gap s.start_ts b)
      (gap s.start_ts s.end_ts)
      (mul-le-mul_left {m = gap s.start_ts a} {n = gap s.start_ts b} s.total_amount (omega arith)),
)

-- For a stream whose schedule is in order, revoked or not: where it can be evaluated at two times,
-- the later gives no less, and no more than the total.
pub vested_at_mono :
    (s : VestingStream) (a b : ℤ) {x y : ℕ}
    → Ordered s
    → a ≤ℤ b
    → vested_at s a ≡ ok x
    → vested_at s b ≡ ok y
    → (x ≤ y) × (y ≤ s.total_amount)
vested_at_mono s a b {x} {y} o le ha hb = (
  omega (
    arith,
    vested_at-exact s a {n = x} o ha,
    vested_at-exact s b {n = y} o hb,
    schedule_mono s (vesting_time s a) (vesting_time s b) later,
  ),
  omega (arith, vested_at-exact s b {n = y} o hb, schedule-le s (vesting_time s b)),
)
  where
    later : vesting_time s a ≤ℤ vesting_time s b
    later = ground arith

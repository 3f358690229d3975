-- ===== src/Treasury/State.antt =====
-- The methods of programs/treasury/src/state.rs: the spend budget of an epoch and the vesting
-- schedule of a stream.
pub mod Schedule
pub mod Budget
use helix_protocol.Prelude.{ℕ, ◌*◌, ◌/◌, Bool, ltb, leb, ◌==◌, if◌then◌else◌, not}
use helix_protocol.Prelude.Int.{ℤ, pos, ltb_ℤ, leb_ℤ, min_ℤ}
use helix_protocol.Prelude.Machine.{
  u64_max, u128_max, within, checked_add, checked_sub, checked_mul, checked_sub_i64, saturating_sub,
  as_u128, as_u64, max_zero,
}
use helix_protocol.Prelude.Fallible.{Result, ok, ◌>>=◌, ◌>>◌, require, ok_or}
use helix_protocol.Treasury.Types.{
  Treasury, VestingStream, TreasuryError, invalid_epoch_duration, epoch_spend_cap_exceeded,
  invalid_vesting_schedule, math_overflow,
}

abbrev pub Fallible {ℓ} : Type ℓ → Type ℓ
Fallible A = Result TreasuryError A

-- `Treasury::epoch_at`.
unfoldable pub epoch_at : Treasury → ℤ → Fallible ℕ
epoch_at t now = do
  require (ltb_ℤ (pos 0) t.epoch_duration) invalid_epoch_duration
  ok (as_u64 (max_zero now) / as_u64 t.epoch_duration)

-- `Treasury::charge_epoch_budget`.
unfoldable pub charge_epoch_budget : Treasury → ℕ → ℤ → Fallible Treasury
charge_epoch_budget t amount now = do
  epoch ← epoch_at t now
  let base = if epoch == t.current_epoch then t.spent_this_epoch else 0
  used ← ok_or (checked_add u64_max base amount) math_overflow
  require (leb used t.epoch_spend_cap) epoch_spend_cap_exceeded
  ok (record t { current_epoch = epoch; spent_this_epoch = used })

-- `Treasury::remaining_budget`.
unfoldable pub remaining_budget : Treasury → ℤ → Fallible ℕ
remaining_budget t now = do
  epoch ← epoch_at t now
  ok (
      if not (epoch == t.current_epoch)
      then t.epoch_spend_cap
      else saturating_sub t.epoch_spend_cap t.spent_this_epoch)

-- `Treasury::uncommitted`.
unfoldable pub uncommitted : Treasury → ℕ → ℕ
uncommitted t vault_balance = saturating_sub vault_balance t.committed_to_streams

-- The time at which `VestingStream::vested_at` evaluates the schedule.
abbrev pub vesting_time : VestingStream → ℤ → ℤ
vesting_time s now = if s.revoked then min_ℤ now s.revoked_at else now

-- The rest of `VestingStream::vested_at`, once the cliff is reached and before the end.
unfoldable pub vested_between : VestingStream → ℤ → Fallible ℕ
vested_between s t = do
  since_start ← ok_or (checked_sub_i64 t s.start_ts) math_overflow
  let elapsed = as_u128 (max_zero since_start)
  length ← ok_or (checked_sub_i64 s.end_ts s.start_ts) math_overflow
  let duration = as_u128 length
  require (ltb 0 duration) invalid_vesting_schedule
  product ← ok_or (checked_mul u128_max s.total_amount elapsed) math_overflow
  ok_or (within u64_max (product / duration)) math_overflow

-- `VestingStream::vested_at`.
unfoldable pub vested_at : VestingStream → ℤ → Fallible ℕ
vested_at s now =
    let t = vesting_time s now in
    if ltb_ℤ t s.cliff_ts
    then ok 0
    else if leb_ℤ s.end_ts t
    then ok s.total_amount
    else vested_between s t

-- `VestingStream::claimable_at`.
unfoldable pub claimable_at : VestingStream → ℤ → Fallible ℕ
claimable_at s now = do vested ← vested_at s now; ok_or (checked_sub vested s.claimed) math_overflow

-- `VestingStream::unvested_remainder`.
unfoldable pub unvested_remainder : VestingStream → Fallible ℕ
unvested_remainder s = do
  vested ← vested_at s s.revoked_at
  ok_or (checked_sub s.total_amount vested) math_overflow

-- `VestingStream::outstanding`.
unfoldable pub outstanding : VestingStream → Fallible ℕ
outstanding s = ok_or (checked_sub s.total_amount s.claimed) math_overflow

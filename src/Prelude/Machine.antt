-- ===== src/Prelude/Machine.antt =====
-- Rust's integer operations on `u16`, `u64`, `u128` and `i64`. A value is a plain number; an operation
-- that the type's range refuses is `none`, and a cast wraps.
use Prim.Native.Nat.{ℕ, ◌+◌, ◌-◌, ◌*◌}
use mathlib.Core.Path.{◌≡◌}
use mathlib.Core.Bool.{Bool}
use mathlib.Core.Option.{Option, none, some}
use native.Mathlib.Omega.{arith}
use helix_protocol.Prelude.Tests.{leb, if◌then◌else◌}
use helix_protocol.Prelude.Int.{ℤ, pos, negsuc, ◌+ℤ◌, ◌-ℤ◌, ◌≤ℤ◌, leb_ℤ, gap}

abbrev pub u16_max : ℕ
u16_max = 65535

abbrev pub u64_max : ℕ
u64_max = 18446744073709551615

abbrev pub u128_max : ℕ
u128_max = 340282366920938463463374607431768211455

abbrev pub i64_max : ℕ
i64_max = 9223372036854775807

-- The values that an `i64` holds.
abbrev pub is_i64 : ℤ → Bool
is_i64 (pos n) = leb n i64_max
is_i64 (negsuc n) = leb n i64_max

abbrev pub within : ℕ → ℕ → Option ℕ
within bound n = if leb n bound then some n else none

abbrev pub checked_add : ℕ → ℕ → ℕ → Option ℕ
checked_add bound a b = within bound (a + b)

abbrev pub checked_mul : ℕ → ℕ → ℕ → Option ℕ
checked_mul bound a b = within bound (a * b)

-- `checked_sub` of an unsigned type.
abbrev pub checked_sub : ℕ → ℕ → Option ℕ
checked_sub a b = if leb b a then some (a - b) else none

-- Truncated subtraction is what `saturating_sub` of an unsigned type does.
abbrev pub saturating_sub : ℕ → ℕ → ℕ
saturating_sub a b = a - b

-- `saturating_add` of an unsigned type.
abbrev pub saturating_add : ℕ → ℕ → ℕ → ℕ
saturating_add bound a b = if leb (a + b) bound then a + b else bound

abbrev pub within_i64 : ℤ → Option ℤ
within_i64 z = if is_i64 z then some z else none

abbrev pub checked_add_i64 : ℤ → ℤ → Option ℤ
checked_add_i64 a b = within_i64 (a +ℤ b)

abbrev pub checked_sub_i64 : ℤ → ℤ → Option ℤ
checked_sub_i64 a b = within_i64 (a -ℤ b)

-- `i64::saturating_sub`.
abbrev pub saturating_sub_i64 : ℤ → ℤ → ℤ
saturating_sub_i64 a b =
    if is_i64 (a -ℤ b) then a -ℤ b else if leb_ℤ b a then pos i64_max else negsuc i64_max

-- `z as u128`: a negative number wraps.
abbrev pub as_u128 : ℤ → ℕ
as_u128 (pos n) = n
as_u128 (negsuc n) = u128_max - n

-- `z as u64`: a negative number wraps.
abbrev pub as_u64 : ℤ → ℕ
as_u64 (pos n) = n
as_u64 (negsuc n) = u64_max - n

-- `z.max(0)`.
abbrev pub max_zero : ℤ → ℤ
max_zero (pos n) = pos n
max_zero (negsuc n) = pos 0

-- A difference that is not negative keeps its value in the cast.
pub as_u128--ℤ : (a b : ℤ) → b ≤ℤ a → as_u128 (a -ℤ b) ≡ gap b a
unfolding ◌-ℤ◌
as_u128--ℤ a b h = ground arith

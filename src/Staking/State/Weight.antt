-- ===== src/Staking/State/Weight.antt =====
-- `LockTier::apply_weight` against its exact value.
use helix_protocol.Prelude.{ℕ, ◌*◌, ◌/◌, ◌≤◌, ◌≡◌, arith}
use helix_protocol.Prelude.Machine.{u64_max}
use helix_protocol.Prelude.Fallible.{ok}
use helix_protocol.Staking.Types.{LockTier, flexible, bps_denominator}
use helix_protocol.Staking.State.{weight_bps, apply_weight}

abbrev pub exact_weight : LockTier → ℕ → ℕ
exact_weight tier amount = amount * weight_bps tier / bps_denominator

pub apply_weight-exact :
    (tier : LockTier) (amount : ℕ) {w : ℕ}
    → apply_weight tier amount ≡ ok w
    → (w ≡ exact_weight tier amount) × (w ≤ u64_max)
unfolding apply_weight
apply_weight-exact tier amount h = ground arith

pub exact_weight_mono :
    (tier : LockTier) (a b : ℕ) → a ≤ b → exact_weight tier a ≤ exact_weight tier b
unfolding weight_bps
exact_weight_mono flexible a b h = omega arith
exact_weight_mono _ a b h = omega arith

-- The weight lies between the amount and twice the amount.
pub exact_weight_bounds :
    (tier : LockTier) (a : ℕ) → (a ≤ exact_weight tier a) × (exact_weight tier a ≤ 2 * a)
unfolding weight_bps
exact_weight_bounds flexible a = omega arith
exact_weight_bounds _ a = omega arith

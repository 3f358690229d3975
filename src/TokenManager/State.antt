-- ===== src/TokenManager/State.antt =====
-- The methods of programs/token-manager/src/state.rs: the supply and the epoch cap of a minter.
pub mod Cap
use helix_protocol.Prelude.{ℕ, ◌/◌, not, leb, ◌==◌, if◌then◌else◌}
use helix_protocol.Prelude.Int.{ℤ, pos, ltb_ℤ}
use helix_protocol.Prelude.Machine.{
  u64_max, checked_add, checked_sub, saturating_sub, as_u64, max_zero,
}
use helix_protocol.Prelude.Fallible.{Result, ok, ◌>>=◌, ◌>>◌, require, ok_or}
use helix_protocol.TokenManager.Types.{
  TokenConfig, Minter, TokenManagerError, minter_disabled, epoch_cap_exceeded,
  invalid_epoch_duration, math_overflow,
}

abbrev pub Fallible {ℓ} : Type ℓ → Type ℓ
Fallible A = Result TokenManagerError A

-- `TokenConfig::circulating`.
unfoldable pub circulating : TokenConfig → Fallible ℕ
circulating c = ok_or (checked_sub c.total_minted c.total_burned) math_overflow

-- `Minter::epoch_at`.
unfoldable pub epoch_at : Minter → ℤ → Fallible ℕ
epoch_at m now = do
  require (ltb_ℤ (pos 0) m.epoch_duration) invalid_epoch_duration
  ok (as_u64 (max_zero now) / as_u64 m.epoch_duration)

-- `Minter::accrue`.
unfoldable pub accrue : Minter → ℕ → ℤ → Fallible Minter
accrue m amount now = do
  require m.enabled minter_disabled
  epoch ← epoch_at m now
  let rolled =
      if not (epoch == m.current_epoch)
      then record m { current_epoch = epoch; minted_this_epoch = 0 }
      else m
  used ← ok_or (checked_add u64_max rolled.minted_this_epoch amount) math_overflow
  require (leb used m.epoch_cap) epoch_cap_exceeded
  total ← ok_or (checked_add u64_max m.total_minted amount) math_overflow
  ok (record rolled { minted_this_epoch = used; total_minted = total })

-- `Minter::remaining_this_epoch`.
unfoldable pub remaining_this_epoch : Minter → ℤ → Fallible ℕ
remaining_this_epoch m now = if not m.enabled then ok 0 else (do
  epoch ← epoch_at m now
  ok (
      if not (epoch == m.current_epoch)
      then m.epoch_cap
      else saturating_sub m.epoch_cap m.minted_this_epoch))

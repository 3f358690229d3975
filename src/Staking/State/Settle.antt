-- ===== src/Staking/State/Settle.antt =====
-- What `Position::settle` does, and what a position is owed before and after it.
use native.Mathlib.Nat.{sub_self, mul-zero}
use helix_protocol.Prelude.{ℕ, ◌+◌, ◌-◌, ◌*◌, ◌/◌, ◌≤◌, ◌≡◌, ap, arith}
use helix_protocol.Prelude.Fallible.{ok}
use helix_protocol.Staking.Types.{Position, precision}
use helix_protocol.Staking.State.{earned, settle}

-- The reward of a position at a value of the accumulator, scaled by `precision`, so that no fraction
-- is lost.
abbrev pub owed : ℕ → Position → ℕ
owed reward_per_token s =
    s.pending_rewards * precision + s.weighted_amount * (reward_per_token - s.reward_per_token_paid)

pub record Settled (reward_per_token : ℕ) (s s' : Position) : Type 0 where
  pub pending : ℕ
  pub frame : s' ≡ record s { pending_rewards = pending; reward_per_token_paid = reward_per_token }
  pub behind : s.reward_per_token_paid ≤ reward_per_token
  pub exact :
      pending
      ≡ s.pending_rewards
        + s.weighted_amount * (reward_per_token - s.reward_per_token_paid) / precision

pub settle-Settled : (r : ℕ) (s s' : Position) → settle s r ≡ ok s' → Settled r s s'
unfolding settle earned
settle-Settled r s s' h = record {
  pending = s.weighted_amount * (r - s.reward_per_token_paid) / precision + s.pending_rewards;
  frame = ground arith;
  behind = ground arith;
  exact = ground arith;
}

-- A position that has just settled is owed its credit.
pub mul-self_sub : (w r : ℕ) → w * (r - r) ≡ 0
mul-self_sub w r = simp (sub_self, mul-zero)

-- Settling truncates: what a settled position is owed under any weight, with what it is paid from
-- its credit, is no more than what it was owed before.
pub Settled-owed :
    (r paid : ℕ) (s s' new : Position)
    → Settled r s s'
    → new.pending_rewards + paid ≡ s'.pending_rewards
    → new.reward_per_token_paid ≡ r
    → owed r new + paid * precision ≤ owed r s
Settled-owed r paid s s' new z e f =
    let credit : s'.pending_rewards ≡ z.pending =
      ap (λ (x : Position). x.pending_rewards) z.frame in
    rw f (omega (arith, e, credit, z.exact, mul-self_sub new.weighted_amount r))

-- ===== src/Staking/System/Claims.antt =====
-- The claims on the reward vault: `claim` in programs/staking/src/instructions/claim.rs.
use helix_protocol.Prelude.{ℕ, ◌+◌, ◌*◌, ◌≤◌, ◌≡◌, some, List, arith, ap}
use helix_protocol.Prelude.Lists.{get_elem?, le-sum_by}
use helix_protocol.Prelude.Int.{ℤ}
use helix_protocol.Prelude.Fallible.{ok}
use helix_protocol.Staking.Types.{Pool, Position, precision}
use helix_protocol.Staking.State.{update_rewards, settle}
use helix_protocol.Staking.State.Update.{update_rewards-Updated, remaining_emission}
use helix_protocol.Staking.State.Settle.{owed, Settled, settle-Settled, Settled-owed}
use helix_protocol.Staking.Books.{IsSolvent, update-IsSolvent}

le_of_scaled : (k a b : ℕ) → k * precision + b * precision ≤ a * precision → k + b ≤ a
le_of_scaled k a b h = omega arith

-- In a solvent pool the credit of any position, once the pool and the position are brought up to
-- date, is within what the pool has accrued and not paid, and within the balance of the reward
-- vault, with the rest of the promised emission beside it.
pub claim-covered :
    (p q : Pool) (xs : List Position) (sb rb i : ℕ) (x x' : Position) (now : ℤ)
    → IsSolvent p xs sb rb
    → get_elem? xs i ≡ some x
    → update_rewards p now ≡ ok q
    → settle x q.reward_per_token ≡ ok x'
    → (x'.pending_rewards + q.total_rewards_paid ≤ q.total_rewards_accrued)
      × (x'.pending_rewards + remaining_emission q q.last_update_ts ≤ rb)
claim-covered p q xs sb rb i x x' now v at eu es =
    (omega (arith, within), omega (arith, within, v'.funded))
  where
    v' : IsSolvent q xs sb rb
    v' = update-IsSolvent p q xs sb rb (update_rewards-Updated p q now eu) v

    z : Settled q.reward_per_token x x'
    z = settle-Settled q.reward_per_token x x' es

    paid_out : Position
    paid_out = record x' { pending_rewards = 0 }

    within : x'.pending_rewards + q.total_rewards_paid ≤ q.total_rewards_accrued
    within = le_of_scaled x'.pending_rewards q.total_rewards_accrued q.total_rewards_paid (
        omega (
          arith,
          Settled-owed q.reward_per_token x'.pending_rewards x x' paid_out z (omega arith)
              (ap (λ (s : Position). s.reward_per_token_paid) z.frame),
          le-sum_by (owed q.reward_per_token) xs i x at,
          v'.solvent,
        ))

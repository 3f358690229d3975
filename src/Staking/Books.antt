-- ===== src/Staking/Books.antt =====
-- The books of a pool: the pool account, all open positions, and the balances of the two vaults.
-- The invariant that ties them together, and what an update of the accumulator does to it.
pub mod Change
use helix_protocol.Prelude.{ℕ, ◌+◌, ◌-◌, ◌*◌, ◌≤◌, ◌<◌, ◌≡◌, ap, List, [], ◌∷◌, arith}
use helix_protocol.Prelude.Lists.{sum_by, All, All-map}
use helix_protocol.Staking.Types.{Pool, Position, precision}
use helix_protocol.Staking.State.Update.{Updated, remaining_emission}
use helix_protocol.Staking.State.Settle.{owed}
use helix_protocol.Staking.State.Weight.{exact_weight}

-- A position against its pool: its watermark is not ahead of the accumulator, its weight is its
-- tier's multiple of its principal, and its id has been given out.
pub record IsSound (accumulator count : ℕ) (s : Position) : Type 0 where
  pub behind : s.reward_per_token_paid ≤ accumulator
  pub weighed : s.weighted_amount ≡ exact_weight s.tier s.amount
  pub numbered : s.position_id < count

-- `staked` and `backed` are INVARIANTS.md 1.1, with `≤` since anyone may send tokens to a vault;
-- `solvent` and `funded` are 1.2: what all positions are owed is within what was accrued and not
-- yet paid, and that, with all that the current rate will still emit, is in the reward vault.
pub record IsSolvent (p : Pool) (xs : List Position) (stake_balance reward_balance : ℕ)
    : Type 0 where
  pub staked : p.total_staked ≡ sum_by (λ s. s.amount) xs
  pub backed : p.total_staked ≤ stake_balance
  pub weighted : p.total_weighted ≡ sum_by (λ s. s.weighted_amount) xs
  pub sound : All (IsSound p.reward_per_token p.position_count) xs
  pub solvent :
      sum_by (owed p.reward_per_token) xs + p.total_rewards_paid * precision
      ≤ p.total_rewards_accrued * precision
  pub bounded : p.reward_per_token ≤ p.total_rewards_accrued * precision
  pub funded :
      p.total_rewards_accrued + remaining_emission p p.last_update_ts
      ≤ p.total_rewards_paid + reward_balance

pub IsSound-mono :
    (r r' n n' : ℕ) (xs : List Position)
    → r ≤ r'
    → n ≤ n'
    → All (IsSound r n) xs
    → All (IsSound r' n') xs
IsSound-mono r r' n n' xs h k =
    All-map _ _ xs
      (λ x v. record { behind = omega arith; weighed = v.weighed; numbered = omega arith })

owed-gain :
    (r g : ℕ) (s : Position)
    → s.reward_per_token_paid ≤ r
    → owed (r + g) s ≡ owed r s + g * s.weighted_amount
owed-gain r g s h =
    let further : r + g - s.reward_per_token_paid ≡ r - s.reward_per_token_paid + g = omega arith in
    omega (arith, ap (λ (t : ℕ). s.weighted_amount * t) further)

-- A gain of the accumulator adds its multiple of the total weight to what is owed.
sum_by-owed-gain :
    (r g n : ℕ) (xs : List Position)
    → All (IsSound r n) xs
    → sum_by (owed (r + g)) xs
      ≡ sum_by (owed r) xs + g * sum_by (λ (s : Position). s.weighted_amount) xs
sum_by-owed-gain r g n [] v = omega arith
sum_by-owed-gain r g n (x ∷ xs) v =
    omega (arith, owed-gain r g x v.0.behind, sum_by-owed-gain r g n xs v.1)

-- An update keeps the books solvent.
pub update-IsSolvent :
    (p q : Pool) (xs : List Position) (sb rb : ℕ)
    → Updated p q
    → IsSolvent p xs sb rb
    → IsSolvent q xs sb rb
update-IsSolvent p q xs sb rb u v = rw u.frame (record {
  staked = v.staked;
  backed = v.backed;
  weighted = v.weighted;
  sound =
      IsSound-mono p.reward_per_token (p.reward_per_token + u.gain) p.position_count
        p.position_count xs (omega arith) (omega arith) v.sound;
  solvent = omega (
    arith,
    sum_by-owed-gain p.reward_per_token u.gain p.position_count xs v.sound,
    ap (λ (t : ℕ). u.gain * t) v.weighted,
    u.distributed,
    v.solvent,
  );
  bounded = omega (arith, u.limited, v.bounded);
  funded = omega (arith, u.budget, v.funded);
})

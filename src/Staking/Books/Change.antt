-- ===== src/Staking/Books/Change.antt =====
-- The changes that the instructions make to the books once the accumulator is up to date: a position
-- opens, one is replaced, one is closed.
use helix_protocol.Prelude.{ℕ, ◌+◌, ◌*◌, ◌≤◌, ◌≡◌, List, ◌∷◌, some, arith}
use helix_protocol.Prelude.Lists.{
  get_elem?, set, erase_at, sum_by-set, sum_by-erase_at, All-set, All-erase_at,
}
use helix_protocol.Staking.Types.{Pool, Position, precision}
use helix_protocol.Staking.State.Settle.{owed, mul-self_sub}
use helix_protocol.Staking.State.Weight.{exact_weight}
use helix_protocol.Staking.Books.{IsSound, IsSolvent, IsSound-mono}

module _ (p : Pool) (xs : List Position) (sb rb : ℕ) (v : IsSolvent p xs sb rb) where
  -- A position opens at the watermark of the pool.
  pub open-IsSolvent :
      (s : Position) (sb' : ℕ)
      → s.reward_per_token_paid ≡ p.reward_per_token
      → s.pending_rewards ≡ 0
      → s.position_id ≡ p.position_count
      → s.weighted_amount ≡ exact_weight s.tier s.amount
      → sb' ≡ sb + s.amount
      → IsSolvent
          (record p {
            total_staked = p.total_staked + s.amount;
            total_weighted = p.total_weighted + s.weighted_amount;
            position_count = p.position_count + 1;
          })
          (s ∷ xs)
          sb'
          rb
  open-IsSolvent s sb' watermark nothing id weighed received = record {
    staked = omega (arith, v.staked);
    backed = omega (arith, v.backed);
    weighted = omega (arith, v.weighted);
    sound = (
      record { behind = omega arith; weighed = weighed; numbered = omega arith },
      IsSound-mono p.reward_per_token p.reward_per_token p.position_count (p.position_count + 1) xs
          (omega arith) (omega arith) v.sound,
    );
    solvent =
        rw (watermark, nothing)
          (omega (arith, mul-self_sub s.weighted_amount p.reward_per_token, v.solvent));
    bounded = v.bounded;
    funded = v.funded;
  }

  -- A position is replaced: its principal and weight change with the totals, and what leaves the
  -- reward vault was owed to it.
  pub set-IsSolvent :
      (i : ℕ) (old new : Position) (staked weighted paid sb' rb' : ℕ)
      → get_elem? xs i ≡ some old
      → IsSound p.reward_per_token p.position_count new
      → staked + old.amount ≡ p.total_staked + new.amount
      → weighted + old.weighted_amount ≡ p.total_weighted + new.weighted_amount
      → owed p.reward_per_token new + paid * precision ≤ owed p.reward_per_token old
      → sb + new.amount ≤ sb' + old.amount
      → rb' + paid ≡ rb
      → IsSolvent
          (record p {
            total_staked = staked;
            total_weighted = weighted;
            total_rewards_paid = p.total_rewards_paid + paid;
          })
          (set xs i new)
          sb'
          rb'
  set-IsSolvent i old new staked weighted paid sb' rb' at sound es ew eo bal left = record {
    staked = omega (arith, v.staked, sum_by-set (λ (s : Position). s.amount) xs i old new at);
    backed = omega (arith, v.backed);
    weighted =
        omega (arith, v.weighted, sum_by-set (λ (s : Position). s.weighted_amount) xs i old new at);
    sound = All-set (IsSound p.reward_per_token p.position_count) xs i new v.sound sound;
    solvent = omega (arith, v.solvent, sum_by-set (owed p.reward_per_token) xs i old new at);
    bounded = v.bounded;
    funded = omega (arith, v.funded);
  }

  -- An empty position is closed.
  pub erase_at-IsSolvent :
      (i : ℕ) (old : Position)
      → get_elem? xs i ≡ some old
      → old.amount ≡ 0
      → old.weighted_amount ≡ 0
      → IsSolvent p (erase_at xs i) sb rb
  erase_at-IsSolvent i old at ea ew = record {
    staked = omega (arith, v.staked, sum_by-erase_at (λ (s : Position). s.amount) xs i old at);
    backed = v.backed;
    weighted =
        omega
          (arith, v.weighted, sum_by-erase_at (λ (s : Position). s.weighted_amount) xs i old at);
    sound = All-erase_at (IsSound p.reward_per_token p.position_count) xs i v.sound;
    solvent = omega (arith, v.solvent, sum_by-erase_at (owed p.reward_per_token) xs i old at);
    bounded = v.bounded;
    funded = v.funded;
  }

-- What the books do not read: who holds the authority, the pause, and the sum of all deposits. The
-- vaults may grow.
pub frame-IsSolvent :
    (p q : Pool) (xs : List Position) (sb rb sb' rb' : ℕ)
    → q ≡ record p {
      authority = q.authority;
      pending_authority = q.pending_authority;
      paused = q.paused;
      total_rewards_funded = q.total_rewards_funded;
    }
    → sb ≤ sb'
    → rb ≤ rb'
    → IsSolvent p xs sb rb
    → IsSolvent q xs sb' rb'
frame-IsSolvent p q xs sb rb sb' rb' e hs hr v = rw e (record {
  staked = v.staked;
  backed = omega (arith, v.backed);
  weighted = v.weighted;
  sound = v.sound;
  solvent = v.solvent;
  bounded = v.bounded;
  funded = omega (arith, v.funded);
})

pub keep-IsSolvent :
    (p q : Pool) (xs : List Position) (sb rb : ℕ)
    → q ≡ record p {
      authority = q.authority;
      pending_authority = q.pending_authority;
      paused = q.paused;
      total_rewards_funded = q.total_rewards_funded;
    }
    → IsSolvent p xs sb rb
    → IsSolvent q xs sb rb
keep-IsSolvent p q xs sb rb e = frame-IsSolvent p q xs sb rb sb rb e (omega arith) (omega arith)

-- ===== src/Staking/Effects/Withdraw.antt =====
-- The effects of a successful `unstake`, `claim` and `close_position`.
use helix_protocol.Prelude.{ℕ, ◌+◌, ◌-◌, ◌≤◌, ◌<◌, ◌≡◌, inl, inr, some, Option, arith, Option-cases}
use helix_protocol.Prelude.Int.{ℤ, ◌≤ℤ◌}
use helix_protocol.Prelude.Fallible.{ok, Result-cases, >>-eq-ok}
use helix_protocol.Anchor.{Runtime, TokenAccount, TokenProgram}
use helix_protocol.Staking.Types.{Pool, Position}
use helix_protocol.Staking.State.{
  update_rewards, apply_weight, settle, is_unlocked, ensure_closable,
}
use helix_protocol.Staking.Withdraw.{
  UnstakeAccounts, UnstakeOutcome, check_unstake, unstake_handler, unstake, ClaimAccounts,
  ClaimOutcome, check_claim, claim_handler, claim,
}

pub record Withdrawn (T : TokenProgram) (a : UnstakeAccounts) (now : ℤ) (amount : ℕ)
    (out : UnstakeOutcome) : Type 0 where
  pub updated : Pool
  pub settled : Position
  pub update : update_rewards a.pool now ≡ ok updated
  pub settlement : settle a.position updated.reward_per_token ≡ ok settled
  pub unlocked : a.position.lock_end ≤ℤ now
  pub positive : 0 < amount
  pub enough : amount ≤ a.position.amount
  pub transfer :
      T.transfer_checked a.stake_vault a.stake_mint a.owner_token_account a.vault_authority amount
        a.stake_mint.decimals
      ≡ some (out.stake_vault, out.owner_token_account)
  pub remaining : out.position.amount + amount ≡ settled.amount
  pub weight : apply_weight settled.tier out.position.amount ≡ ok out.position.weighted_amount
  pub lighter : out.position.weighted_amount ≤ settled.weighted_amount
  pub position : out.position ≡ record settled {
    amount = out.position.amount;
    weighted_amount = out.position.weighted_amount;
  }
  pub staked : out.pool.total_staked + amount ≡ updated.total_staked
  pub weighted :
      out.pool.total_weighted + settled.weighted_amount
      ≡ updated.total_weighted + out.position.weighted_amount
  pub pool : out.pool ≡ record updated {
    total_staked = out.pool.total_staked;
    total_weighted = out.pool.total_weighted;
  }

module _ (R : Runtime) (T : TokenProgram) (a : UnstakeAccounts) (now : ℤ) (amount : ℕ)
    (out : UnstakeOutcome) where
  withdrawn :
      (updated : Pool) (settled : Position) (vault receiver : TokenAccount) (w : ℕ)
      → update_rewards a.pool now ≡ ok updated
      → settle a.position updated.reward_per_token ≡ ok settled
      → T.transfer_checked a.stake_vault a.stake_mint a.owner_token_account a.vault_authority amount
          a.stake_mint.decimals
        ≡ some (vault, receiver)
      → apply_weight settled.tier (settled.amount - amount) ≡ ok w
      → unstake_handler T a now amount ≡ ok out
      → Withdrawn T a now amount out
  unfolding unstake_handler is_unlocked
  withdrawn updated settled vault receiver w eu es et ew h = record {
    updated = updated;
    settled = settled;
    update = eu;
    settlement = es;
    unlocked = ground arith;
    positive = ground arith;
    enough = ground arith;
    transfer = ground arith;
    remaining = ground arith;
    weight = ground arith;
    lighter = ground arith;
    position = ground arith;
    staked = ground arith;
    weighted = ground arith;
    pool = ground arith;
  }

  pub unstake_handler-Withdrawn :
      unstake_handler T a now amount ≡ ok out → Withdrawn T a now amount out
  unfolding unstake_handler
  unstake_handler-Withdrawn h = elim (Result-cases (update_rewards a.pool now)) [
    | inl (f, e) ↦ ground arith
    | inr (updated, eu) ↦ elim (Result-cases (settle a.position updated.reward_per_token)) [
      | inl (f, e) ↦ ground arith
      | inr (settled, es) ↦ elim (Option-cases moved) [
        | inl e ↦ ground arith
        | inr ((vault, receiver), et) ↦
            elim (Result-cases (apply_weight settled.tier (settled.amount - amount))) [
              | inl (f, e) ↦ ground arith
              | inr (w, ew) ↦ withdrawn updated settled vault receiver w eu es et ew h
            ]
      ]
    ]
  ]
    where
      moved : Option (TokenAccount × TokenAccount)
      moved =
          T.transfer_checked a.stake_vault a.stake_mint a.owner_token_account a.vault_authority
            amount a.stake_mint.decimals

  -- A successful `unstake` is of an unlocked position and a positive amount within its principal;
  -- it settles the position against the updated pool, takes the amount from the principal and from
  -- the staked total, weighs the rest anew, and takes the difference of the weights from the
  -- weighted total.
  pub unstake-Withdrawn : unstake R T a now amount ≡ ok out → Withdrawn T a now amount out
  unfolding unstake
  unstake-Withdrawn h = unstake_handler-Withdrawn (>>-eq-ok (check_unstake R a) _ h).1

pub record Claimed (T : TokenProgram) (a : ClaimAccounts) (now : ℤ) (out : ClaimOutcome)
    : Type 0 where
  pub updated : Pool
  pub settled : Position
  pub update : update_rewards a.pool now ≡ ok updated
  pub settlement : settle a.position updated.reward_per_token ≡ ok settled
  pub positive : 0 < settled.pending_rewards
  pub transfer :
      T.transfer_checked a.reward_vault a.reward_mint a.owner_reward_account a.vault_authority
        settled.pending_rewards a.reward_mint.decimals
      ≡ some (out.reward_vault, out.owner_reward_account)
  pub position : out.position ≡ record settled { pending_rewards = 0 }
  pub pool :
      out.pool
      ≡ record updated { total_rewards_paid = updated.total_rewards_paid + settled.pending_rewards }

module _ (R : Runtime) (T : TokenProgram) (a : ClaimAccounts) (now : ℤ) (out : ClaimOutcome) where
  claimed :
      (updated : Pool) (settled : Position) (vault receiver : TokenAccount)
      → update_rewards a.pool now ≡ ok updated
      → settle a.position updated.reward_per_token ≡ ok settled
      → T.transfer_checked a.reward_vault a.reward_mint a.owner_reward_account a.vault_authority
          settled.pending_rewards a.reward_mint.decimals
        ≡ some (vault, receiver)
      → claim_handler T a now ≡ ok out
      → Claimed T a now out
  unfolding claim_handler
  claimed updated settled vault receiver eu es et h = record {
    updated = updated;
    settled = settled;
    update = eu;
    settlement = es;
    positive = ground arith;
    transfer = ground arith;
    position = ground arith;
    pool = ground arith;
  }

  pub claim_handler-Claimed : claim_handler T a now ≡ ok out → Claimed T a now out
  unfolding claim_handler
  claim_handler-Claimed h = elim (Result-cases (update_rewards a.pool now)) [
    | inl (f, e) ↦ ground arith
    | inr (updated, eu) ↦ elim (Result-cases (settle a.position updated.reward_per_token)) [
      | inl (f, e) ↦ ground arith
      | inr (settled, es) ↦ elim (Option-cases (moved settled)) [
        | inl e ↦ ground arith
        | inr ((vault, receiver), et) ↦ claimed updated settled vault receiver eu es et h
      ]
    ]
  ]
    where
      moved : Position → Option (TokenAccount × TokenAccount)
      moved s =
          T.transfer_checked a.reward_vault a.reward_mint a.owner_reward_account a.vault_authority
            s.pending_rewards a.reward_mint.decimals

  -- A successful `claim` settles the position against the updated pool, transfers the whole
  -- pending reward, which is positive, from the reward vault, adds it to the rewards paid, and
  -- leaves the position with no pending reward.
  pub claim-Claimed : claim R T a now ≡ ok out → Claimed T a now out
  unfolding claim
  claim-Claimed h = claim_handler-Claimed (>>-eq-ok (check_claim R a) _ h).1

-- A position that `close_position` lets go is empty in all three respects.
pub ensure_closable-empty :
    (s : Position)
    → ensure_closable s ≡ ok tt
    → (s.amount ≡ 0) × (s.weighted_amount ≡ 0) × (s.pending_rewards ≡ 0)
unfolding ensure_closable
ensure_closable-empty s h = ground arith

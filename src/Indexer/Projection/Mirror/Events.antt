-- ===== src/Indexer/Projection/Mirror/Events.antt =====
-- The events of `stake`, `unstake`, `claim`, `fund_rewards` and `set_reward_rate` of
-- programs/staking, by the accounts that the instructions leave.
use helix_protocol.Prelude.{ℕ, ◌+◌, ◌-◌, ◌≤◌, ◌≡◌, inl, inr, Option, arith, Option-cases}
use helix_protocol.Prelude.Machine.{u64_max}
use helix_protocol.Prelude.Int.{ℤ}
use helix_protocol.Prelude.Fallible.{ok, Result-cases, >>-eq-ok}
use helix_protocol.Anchor.{Runtime, TokenAccount, TokenProgram}
use helix_protocol.Staking.Types.{Pool, LockTier}
use helix_protocol.Staking.Events.{RewardRateChanged}
use helix_protocol.Staking.State.{
  apply_weight, update_rewards, settle, emission_for, unpaid_liability,
}
use helix_protocol.Staking.State.Update.{update_rewards-Updated}
use helix_protocol.Staking.Stake.{StakeAccounts, StakeOutcome, check_stake, stake_handler, stake}
use helix_protocol.Staking.Withdraw.{
  UnstakeAccounts, UnstakeOutcome, check_unstake, unstake_handler, unstake, ClaimAccounts,
  ClaimOutcome, check_claim, claim_handler, claim,
}
use helix_protocol.Staking.Admin.{
  FundRewardsAccounts, FundRewardsOutcome, check_fund_rewards, fund_rewards_handler, fund_rewards,
  SetRewardRateAccounts, check_set_reward_rate, set_reward_rate_handler, set_reward_rate,
}

pub record StakedEvent (a : StakeAccounts) (now : ℤ) (amount : ℕ) (out : StakeOutcome)
    : Type 0 where
  pub event : out.event ≡ record {
    pool = a.pool_key;
    position = a.position_key;
    owner = a.owner;
    position_id = out.position.position_id;
    amount_sent = amount;
    amount_credited = out.position.amount;
    weighted_amount = out.position.weighted_amount;
    tier = out.position.tier;
    lock_end = out.position.lock_end;
    timestamp = now;
  }
  pub pool : out.position.pool ≡ a.pool_key
  pub owner : out.position.owner ≡ a.owner
  pub staked_fits : out.pool.total_staked ≤ u64_max
  pub weighted_fits : out.pool.total_weighted ≤ u64_max
  pub count_fits : out.pool.position_count ≤ u64_max

pub record ClaimedEvent (a : ClaimAccounts) (now : ℤ) (out : ClaimOutcome) : Type 0 where
  pub event : out.event ≡ record {
    pool = a.pool_key;
    position = a.position_key;
    owner = a.owner;
    amount = out.event.amount;
    timestamp = now;
  }
  pub paid : out.pool.total_rewards_paid ≡ a.pool.total_rewards_paid + out.event.amount
  pub fits : out.pool.total_rewards_paid ≤ u64_max

module _ (R : Runtime) (T : TokenProgram) where
  pub stake-event :
      (a : StakeAccounts) (now : ℤ) (id amount : ℕ) (tier : LockTier) (out : StakeOutcome)
      → stake R T a now id amount tier ≡ ok out
      → StakedEvent a now amount out
  unfolding stake stake_handler
  stake-event a now id amount tier out h =
      let k = (>>-eq-ok (check_stake R a id) _ h).1 in
      elim (Result-cases (update_rewards a.pool now)) [
        | inl (f, e) ↦ ground arith
        | inr (updated, eu) ↦ elim (Option-cases moved) [
          | inl e ↦ ground arith
          | inr ((sender, vault), et) ↦
              elim (Result-cases (apply_weight tier (vault.amount - a.stake_vault.amount))) [
                | inl (f, e) ↦ ground arith
                | inr (w, ew) ↦ record {
                  event = ground arith;
                  pool = ground arith;
                  owner = ground arith;
                  staked_fits = ground arith;
                  weighted_fits = ground arith;
                  count_fits = ground arith;
                }
              ]
        ]
      ]
    where
      moved : Option (TokenAccount × TokenAccount)
      moved =
          T.transfer_checked a.owner_token_account a.stake_mint a.stake_vault a.owner amount
            a.stake_mint.decimals

  pub unstake-event :
      (a : UnstakeAccounts) (now : ℤ) (amount : ℕ) (out : UnstakeOutcome)
      → unstake R T a now amount ≡ ok out
      → out.event ≡ record {
        pool = a.pool_key;
        position = a.position_key;
        owner = a.owner;
        amount = amount;
        remaining = out.position.amount;
        weighted_amount = out.position.weighted_amount;
        timestamp = now;
      }
  unfolding unstake unstake_handler
  unstake-event a now amount out h =
      let k = (>>-eq-ok (check_unstake R a) _ h).1 in
      elim (Result-cases (update_rewards a.pool now)) [
        | inl (f, e) ↦ ground arith
        | inr (updated, eu) ↦ elim (Result-cases (settle a.position updated.reward_per_token)) [
          | inl (f, e) ↦ ground arith
          | inr (settled, es) ↦ elim (Option-cases moved) [
            | inl e ↦ ground arith
            | inr ((vault, receiver), et) ↦
                elim (Result-cases (apply_weight settled.tier (settled.amount - amount))) [
                  | inl (f, e) ↦ ground arith
                  | inr (w, ew) ↦ ground arith
                ]
          ]
        ]
      ]
    where
      moved : Option (TokenAccount × TokenAccount)
      moved =
          T.transfer_checked a.stake_vault a.stake_mint a.owner_token_account a.vault_authority
            amount a.stake_mint.decimals

  pub claim-event :
      (a : ClaimAccounts) (now : ℤ) (out : ClaimOutcome)
      → claim R T a now ≡ ok out
      → ClaimedEvent a now out
  unfolding claim claim_handler
  claim-event a now out h =
      let k = (>>-eq-ok (check_claim R a) _ h).1 in
      elim (Result-cases (update_rewards a.pool now)) [
        | inl (f, e) ↦ ground arith
        | inr (updated, eu) ↦ elim (Result-cases (settle a.position updated.reward_per_token)) [
          | inl (f, e) ↦ ground arith
          | inr (settled, es) ↦ elim (Option-cases (moved settled.pending_rewards)) [
            | inl e ↦ ground arith
            | inr ((vault, receiver), et) ↦
                let kept = (update_rewards-Updated a.pool updated now eu).frame in
                record { event = ground arith; paid = ground (arith, kept); fits = ground arith }
          ]
        ]
      ]
    where
      moved : ℕ → Option (TokenAccount × TokenAccount)
      moved amount =
          T.transfer_checked a.reward_vault a.reward_mint a.owner_reward_account a.vault_authority
            amount a.reward_mint.decimals

  pub fund_rewards-event :
      (a : FundRewardsAccounts) (now : ℤ) (amount : ℕ) (out : FundRewardsOutcome)
      → fund_rewards R T a now amount ≡ ok out
      → (out.event.pool ≡ a.pool_key) × (out.event.total_funded ≡ out.pool.total_rewards_funded)
  unfolding fund_rewards fund_rewards_handler
  fund_rewards-event a now amount out h =
      let k = (>>-eq-ok (check_fund_rewards R a) _ h).1 in
      elim (Option-cases moved) [
        | inl e ↦ ground arith
        | inr ((sender, vault), et) ↦ (ground arith, ground arith)
      ]
    where
      moved : Option (TokenAccount × TokenAccount)
      moved =
          T.transfer_checked a.funder_token_account a.reward_mint a.reward_vault a.funder amount
            a.reward_mint.decimals

pub set_reward_rate-event :
    (R : Runtime) (a : SetRewardRateAccounts) (now : ℤ) (rate : ℕ) (period_end : ℤ)
    (out : Pool × RewardRateChanged)
    → set_reward_rate R a now rate period_end ≡ ok out
    → (out.1.pool ≡ a.pool_key) × (out.1.new_rate ≡ rate) × (out.1.reward_period_end ≡ period_end)
unfolding set_reward_rate set_reward_rate_handler unpaid_liability
set_reward_rate-event R a now rate period_end out h =
    let k = (>>-eq-ok (check_set_reward_rate R a) _ h).1 in
    elim (Result-cases (update_rewards a.pool now)) [
      | inl (f, e) ↦ ground arith
      | inr (updated, eu) ↦
          elim (Result-cases
            (emission_for (record updated { reward_period_end = period_end }) rate now)) [
              | inl (f, e) ↦ ground arith
              | inr (n, en) ↦ (ground arith, ground arith, ground arith)
            ]
    ]

-- ===== src/Staking/Effects/Admin.antt =====
-- The effects of a successful `fund_rewards` and `set_reward_rate`.
use helix_protocol.Prelude.{
  ℕ, ◌+◌, ◌-◌, ◌*◌, ◌≤◌, ◌<◌, ◌≡◌, inl, inr, some, Option, arith, Option-cases, Bool-cases, ap,
}
use helix_protocol.Prelude.Int.{ℤ, ◌≤ℤ◌, gap, leb_ℤ}
use helix_protocol.Prelude.Machine.{as_u128--ℤ}
use helix_protocol.Prelude.Fallible.{ok, Result-cases, >>-eq-ok}
use helix_protocol.Anchor.{Runtime, TokenAccount, TokenProgram}
use helix_protocol.Staking.Types.{Pool, max_reward_rate}
use helix_protocol.Staking.Events.{RewardRateChanged}
use helix_protocol.Staking.State.{update_rewards, unpaid_liability, emission_for}
use helix_protocol.Staking.Admin.{
  FundRewardsAccounts, FundRewardsOutcome, check_fund_rewards, fund_rewards_handler, fund_rewards,
  SetRewardRateAccounts, check_set_reward_rate, set_reward_rate_handler, set_reward_rate,
}

pub record Funded (T : TokenProgram) (a : FundRewardsAccounts) (amount : ℕ)
    (out : FundRewardsOutcome) : Type 0 where
  pub transfer :
      T.transfer_checked a.funder_token_account a.reward_mint a.reward_vault a.funder amount
        a.reward_mint.decimals
      ≡ some (out.funder_token_account, out.reward_vault)
  pub received : a.reward_vault.amount < out.reward_vault.amount
  pub pool : out.pool ≡ record (a.pool) {
    total_rewards_funded =
        a.pool.total_rewards_funded + (out.reward_vault.amount - a.reward_vault.amount);
  }

pub fund_rewards-Funded :
    (R : Runtime) (T : TokenProgram) (a : FundRewardsAccounts) (now : ℤ) (amount : ℕ)
    (out : FundRewardsOutcome)
    → fund_rewards R T a now amount ≡ ok out
    → Funded T a amount out
unfolding fund_rewards fund_rewards_handler
fund_rewards-Funded R T a now amount out h =
    let k = (>>-eq-ok (check_fund_rewards R a) _ h).1 in
    elim (Option-cases moved) [
      | inl e ↦ ground arith
      | inr ((sender, vault), et) ↦ record {
        transfer = ground arith;
        received = ground arith;
        pool = ground arith;
      }
    ]
  where
    moved : Option (TokenAccount × TokenAccount)
    moved =
        T.transfer_checked a.funder_token_account a.reward_mint a.reward_vault a.funder amount
          a.reward_mint.decimals

-- What `emission_for` computes, where it succeeds.
pub emission_for-exact :
    (p : Pool) (rate : ℕ) (from : ℤ) {n : ℕ}
    → emission_for p rate from ≡ ok n
    → n ≡ gap from p.reward_period_end * rate
unfolding emission_for
emission_for-exact p rate from {n} h = elim (Bool-cases (leb_ℤ p.reward_period_end from)) [
  | inl over ↦
      let none_left : gap from p.reward_period_end ≡ 0 = ground arith in
      ground (arith, ap (λ (t : ℕ). t * rate) none_left)
  | inr ahead ↦ ground (arith, as_u128--ℤ p.reward_period_end from (ground arith))
]

pub record Retuned (a : SetRewardRateAccounts) (now : ℤ) (new_rate : ℕ) (period_end : ℤ)
    (out : Pool) : Type 0 where
  pub updated : Pool
  pub update : update_rewards a.pool now ≡ ok updated
  pub capped : new_rate ≤ max_reward_rate
  pub ahead : now ≤ℤ period_end
  pub consistent : updated.total_rewards_paid ≤ updated.total_rewards_accrued
  pub covered :
      updated.total_rewards_accrued + gap now period_end * new_rate
      ≤ updated.total_rewards_paid + a.reward_vault.amount
  pub pool : out ≡ record updated { reward_rate = new_rate; reward_period_end = period_end }

-- A successful `set_reward_rate` is on the updated pool, with a rate within the maximum and a
-- period that has not ended; then what was accrued, and the new rate over the rest of the period,
-- are within what was paid and the balance of the reward vault, and only the rate and the period's
-- end change.
pub set_reward_rate-Retuned :
    (R : Runtime) (a : SetRewardRateAccounts) (now : ℤ) (new_rate : ℕ) (period_end : ℤ)
    (out : Pool × RewardRateChanged)
    → set_reward_rate R a now new_rate period_end ≡ ok out
    → Retuned a now new_rate period_end out.0
unfolding set_reward_rate set_reward_rate_handler unpaid_liability
set_reward_rate-Retuned R a now new_rate period_end out h =
    let k = (>>-eq-ok (check_set_reward_rate R a) _ h).1 in
    elim (Result-cases (update_rewards a.pool now)) [
      | inl (f, e) ↦ ground arith
      | inr (updated, eu) ↦
          elim (Result-cases
            (emission_for (record updated { reward_period_end = period_end }) new_rate now)) [
              | inl (f, e) ↦ ground arith
              | inr (n, en) ↦ record {
                updated = updated;
                update = eu;
                capped = ground arith;
                ahead = ground arith;
                consistent = ground arith;
                covered = ground (
                  arith,
                  emission_for-exact (record updated { reward_period_end = period_end }) new_rate
                      now en,
                );
                pool = ground arith;
              }
            ]
    ]

-- ===== src/Staking/Tests.antt =====
-- A pool with one position, and the theorems about the staking program at work on it.
use helix_protocol.Prelude.{◌+◌, ◌≤◌, ◌≡◌, refl, false, [], ◌∷◌, arith}
use helix_protocol.Prelude.Int.{pos, ◌-ℤ◌, ◌+ℤ◌}
use helix_protocol.Prelude.Fallible.{ok}
use helix_protocol.Samples.{runtime, token_program, token_program_laws, hlx, user_account}
use helix_protocol.Staking.Types.{Pool, Position, flexible}
use helix_protocol.Staking.Admin.{
  InitializePoolAccounts, InitializePoolOutcome, check_initialize_pool, initialize_pool,
  FundRewardsAccounts, FundRewardsOutcome, check_fund_rewards, fund_rewards_handler, fund_rewards,
  SetRewardRateAccounts, check_set_reward_rate, set_reward_rate_handler, set_reward_rate,
}
use helix_protocol.Staking.Events.{RewardRateChanged}
use helix_protocol.Staking.Withdraw.{
  UnstakeAccounts, UnstakeOutcome, check_position, check_unstake, unstake_handler, unstake,
  check_claim, ClaimAccounts, ClaimOutcome, claim_handler, claim,
}
use helix_protocol.Staking.Stake.{StakeAccounts, StakeOutcome, check_stake, stake_handler, stake}
use helix_protocol.Staking.State.{
  update_rewards, accrue, advance_clock, duration, apply_weight, weight_bps, settle, earned,
  is_unlocked, emission_for, unpaid_liability,
}
use helix_protocol.Staking.System.{System, created, Step, Reach, here, next}
use helix_protocol.Staking.State.Update.{remaining_emission}
use helix_protocol.Staking.Effects.Stake.{Opened, stake-Opened}
use helix_protocol.Staking.Effects.Withdraw.{Withdrawn, unstake-Withdrawn, Claimed, claim-Claimed}
use helix_protocol.Staking.Effects.Admin.{Retuned, set_reward_rate-Retuned}
use helix_protocol.Staking.System.Claims.{claim-covered}
use helix_protocol.Staking.System.Exit.{Fits, update_rewards_total, unstake_succeeds}
use helix_protocol.Staking.System.Solvency.{Solvent, pool-Solvent}

abbrev creation : InitializePoolAccounts
creation = record {
  authority = 41;
  pool_key = 70704;
  pool_in_use = false;
  vault_authority = 7070415;
  stake_mint = hlx;
  reward_mint = hlx;
  stake_vault = 7070411;
  stake_vault_in_use = false;
  reward_vault = 7070412;
  reward_vault_in_use = false;
  token_program = 9;
}

created_ok : (out : InitializePoolOutcome) × (initialize_pool runtime creation (pos 100) ≡ ok out)
unfolding initialize_pool check_initialize_pool
created_ok = (_, refl)

abbrev s₀ : System
s₀ = created created_ok.0

abbrev funding : FundRewardsAccounts
funding = record {
  pool_key = 70704;
  pool = s₀.pool;
  funder = 40;
  reward_mint = hlx;
  funder_token_account = user_account 10_000_000;
  reward_vault = s₀.reward_vault;
  token_program = 9;
}

funded_ok :
    (out : FundRewardsOutcome) × (fund_rewards runtime token_program funding (pos 100) 9_000_000
      ≡ ok out)
unfolding created_ok fund_rewards check_fund_rewards fund_rewards_handler
funded_ok = (_, refl)

abbrev s₁ : System
s₁ = record s₀ { pool = funded_ok.0.pool; reward_vault = funded_ok.0.reward_vault }

abbrev retuning : SetRewardRateAccounts
retuning = record {
  pool_key = 70704;
  pool = s₁.pool;
  authority = 41;
  reward_vault = s₁.reward_vault;
}

retuned_ok :
    (out : Pool × RewardRateChanged) × (set_reward_rate runtime retuning (pos 100) 9_000 (pos 1_100)
      ≡ ok out)
unfolding created_ok funded_ok set_reward_rate check_set_reward_rate set_reward_rate_handler
    update_rewards advance_clock emission_for unpaid_liability ◌-ℤ◌
retuned_ok = (_, refl)

abbrev s₂ : System
s₂ = record s₁ { pool = retuned_ok.0.0 }

abbrev staking : StakeAccounts
staking = record {
  pool_key = 70704;
  pool = s₂.pool;
  owner = 40;
  position_key = 7470408;
  position_in_use = false;
  stake_mint = hlx;
  owner_token_account = user_account 10_000_000;
  stake_vault = s₂.stake_vault;
  token_program = 9;
}

staked_ok :
    (out : StakeOutcome) × (stake runtime token_program staking (pos 200) 0 5_000 flexible ≡ ok out)
unfolding created_ok funded_ok retuned_ok stake check_stake stake_handler update_rewards
    advance_clock duration apply_weight weight_bps ◌-ℤ◌ ◌+ℤ◌
staked_ok = (_, refl)

abbrev s₃ : System
s₃ = record s₂ {
  pool = staked_ok.0.pool;
  positions = staked_ok.0.position ∷ [];
  stake_vault = staked_ok.0.stake_vault;
}

abbrev unstaking : UnstakeAccounts
unstaking = record {
  pool_key = 70704;
  pool = s₃.pool;
  owner = 40;
  position_key = 7470408;
  position = staked_ok.0.position;
  stake_mint = hlx;
  stake_vault = s₃.stake_vault;
  owner_token_account = staked_ok.0.owner_token_account;
  vault_authority = 7070415;
  token_program = 9;
}

unstaked_ok :
    (out : UnstakeOutcome) × (unstake runtime token_program unstaking (pos 300) 2_000 ≡ ok out)
unfolding created_ok funded_ok retuned_ok staked_ok unstake check_unstake check_position
    unstake_handler update_rewards accrue advance_clock settle earned is_unlocked apply_weight
    weight_bps ◌-ℤ◌
unstaked_ok = (_, refl)

abbrev s₄ : System
s₄ = record s₃ {
  pool = unstaked_ok.0.pool;
  positions = unstaked_ok.0.position ∷ [];
  stake_vault = unstaked_ok.0.stake_vault;
}

abbrev claiming : ClaimAccounts
claiming = record {
  pool_key = 70704;
  pool = s₄.pool;
  owner = 40;
  position_key = 7470408;
  position = unstaked_ok.0.position;
  reward_mint = hlx;
  reward_vault = s₄.reward_vault;
  owner_reward_account = unstaked_ok.0.owner_token_account;
  vault_authority = 7070415;
  token_program = 9;
}

claimed_ok : (out : ClaimOutcome) × (claim runtime token_program claiming (pos 400) ≡ ok out)
unfolding created_ok funded_ok retuned_ok staked_ok unstaked_ok claim check_claim check_position
    claim_handler update_rewards accrue advance_clock settle earned ◌-ℤ◌
claimed_ok = (_, refl)

-- Two hundred seconds at 9,000 a second went to the only position.
claimed_all : claimed_ok.0.event.amount ≡ 1_800_000
unfolding claimed_ok created_ok funded_ok retuned_ok staked_ok unstaked_ok claim check_claim
    check_position claim_handler update_rewards accrue advance_clock settle earned ◌-ℤ◌
claimed_all = refl

abbrev s₅ : System
s₅ = record s₄ {
  pool = claimed_ok.0.pool;
  positions = claimed_ok.0.position ∷ [];
  reward_vault = claimed_ok.0.reward_vault;
}

history₃ : Reach runtime token_program s₀ s₃
unfolding created_ok funded_ok retuned_ok staked_ok
history₃ =
    next
      (next
        (next here (
          Step.funds funding (pos 100) 9_000_000 funded_ok.0 refl refl (λ e. omega arith)
            funded_ok.1 refl))
        (Step.retunes retuning (pos 100) 9_000 (pos 1_100) retuned_ok.0 refl refl retuned_ok.1
          refl))
      (Step.stakes staking (pos 200) 0 5_000 flexible staked_ok.0 refl refl (λ e. omega arith)
        staked_ok.1 refl)

history₄ : Reach runtime token_program s₀ s₄
unfolding created_ok funded_ok retuned_ok staked_ok unstaked_ok
history₄ = next history₃ (
    Step.unstakes unstaking 0 (pos 300) 2_000 unstaked_ok.0 refl refl refl (λ e. omega arith)
      unstaked_ok.1 refl)

history₅ : Reach runtime token_program s₀ s₅
unfolding created_ok funded_ok retuned_ok staked_ok unstaked_ok claimed_ok
history₅ = next history₄ (
    Step.claims claiming 0 (pos 400) claimed_ok.0 refl refl refl (λ e. omega arith) claimed_ok.1
      refl)

pool-Solvent_example : Solvent s₅
pool-Solvent_example =
    pool-Solvent runtime token_program token_program_laws creation (pos 100) created_ok.0 s₅
      created_ok.1 history₅

s₃-Solvent : Solvent s₃
s₃-Solvent =
    pool-Solvent runtime token_program token_program_laws creation (pos 100) created_ok.0 s₃
      created_ok.1 history₃

s₄-Solvent : Solvent s₄
s₄-Solvent =
    pool-Solvent runtime token_program token_program_laws creation (pos 100) created_ok.0 s₄
      created_ok.1 history₄

updated_ok : (q : Pool) × (update_rewards s₄.pool (pos 400) ≡ ok q)
unfolding created_ok funded_ok retuned_ok staked_ok unstaked_ok update_rewards accrue advance_clock
    ◌-ℤ◌
updated_ok = (_, refl)

settled_ok : (x : Position) × (settle unstaked_ok.0.position updated_ok.0.reward_per_token ≡ ok x)
unfolding created_ok funded_ok retuned_ok staked_ok unstaked_ok updated_ok settle earned
settled_ok = (_, refl)

claim-covered_example :
    (settled_ok.0.pending_rewards + updated_ok.0.total_rewards_paid
      ≤ updated_ok.0.total_rewards_accrued)
    × (settled_ok.0.pending_rewards + remaining_emission updated_ok.0 updated_ok.0.last_update_ts
        ≤ s₄.reward_vault.amount)
claim-covered_example =
    claim-covered s₄.pool updated_ok.0 s₄.positions s₄.stake_vault.amount s₄.reward_vault.amount 0
      unstaked_ok.0.position settled_ok.0 (pos 400) s₄-Solvent refl updated_ok.1 settled_ok.1

s₃-Fits : Fits s₃.pool
unfolding created_ok funded_ok retuned_ok staked_ok
s₃-Fits = record { after_epoch = omega arith; period = omega arith; room = omega arith }

unstake_succeeds_example :
    (out : UnstakeOutcome) × (unstake_handler token_program unstaking (pos 300) 2_000 ≡ ok out)
unfolding created_ok funded_ok retuned_ok staked_ok
unstake_succeeds_example =
    unstake_succeeds token_program unstaking s₃.positions s₃.reward_vault.amount 0 (pos 300) 2_000 _
      _ s₃-Solvent s₃-Fits refl (omega arith) (omega arith) (omega arith) (omega arith)
      (omega arith) refl

update_rewards_total_example : (q : Pool) × (update_rewards s₃.pool (pos 700) ≡ ok q)
update_rewards_total_example =
    update_rewards_total s₃.pool s₃.positions s₃.stake_vault.amount s₃.reward_vault.amount (pos 700)
      s₃-Solvent s₃-Fits

set_reward_rate-Retuned_example : Retuned retuning (pos 100) 9_000 (pos 1_100) retuned_ok.0.0
set_reward_rate-Retuned_example =
    set_reward_rate-Retuned runtime retuning (pos 100) 9_000 (pos 1_100) retuned_ok.0 retuned_ok.1

stake-Opened_example : Opened token_program staking (pos 200) 0 5_000 flexible staked_ok.0
stake-Opened_example =
    stake-Opened runtime token_program staking (pos 200) 0 5_000 flexible staked_ok.0 staked_ok.1

unstake-Withdrawn_example : Withdrawn token_program unstaking (pos 300) 2_000 unstaked_ok.0
unstake-Withdrawn_example =
    unstake-Withdrawn runtime token_program unstaking (pos 300) 2_000 unstaked_ok.0 unstaked_ok.1

claim-Claimed_example : Claimed token_program claiming (pos 400) claimed_ok.0
claim-Claimed_example =
    claim-Claimed runtime token_program claiming (pos 400) claimed_ok.0 claimed_ok.1

-- ===== src/Indexer/Tests.antt =====
-- A pool with one position, the events of its history, and the theorems about the indexer at work on
-- them.
use helix_protocol.Prelude.{ℕ, ◌≡◌, refl, false, [], ◌∷◌, List, ◌++◌, String}
use helix_protocol.Prelude.Int.{pos, ◌+ℤ◌, ◌-ℤ◌}
use helix_protocol.Prelude.Fallible.{ok}
use helix_protocol.Samples.{runtime, token_program, hlx, user_account}
use helix_protocol.Staking.Types.{flexible}
use helix_protocol.Staking.Admin.{
  InitializePoolAccounts, InitializePoolOutcome, check_initialize_pool, initialize_pool,
}
use helix_protocol.Staking.Stake.{StakeAccounts, StakeOutcome, check_stake, stake_handler, stake}
use helix_protocol.Staking.Withdraw.{
  UnstakeAccounts, UnstakeOutcome, check_position, check_unstake, unstake_handler, unstake,
}
use helix_protocol.Staking.State.{
  update_rewards, accrue, advance_clock, duration, apply_weight, weight_bps, settle, earned,
  is_unlocked,
}
use helix_protocol.Anchor.{helix_staking}
use helix_protocol.Indexer.Maps.{EventId, same_id, contains, insert_id, lookup, insert}
use helix_protocol.Indexer.Event.{HelixEvent, EmittedEvent}
use helix_protocol.Indexer.Projection.{Analytics, new}
use helix_protocol.Indexer.Projection.Staking.{fold_pool_initialized, fold_staked}
use helix_protocol.Indexer.Projection.Apply.{apply, apply_transaction, replay}
use helix_protocol.Indexer.Projection.Redelivery.{apply_transaction_twice, replay-redelivered}
use helix_protocol.Indexer.Projection.Mirror.{
  Ledger, opens_pool, writes, Emits, Indexed, begins, follows, redelivers, Mirrors,
}
use helix_protocol.Indexer.Projection.Mirror.History.{Indexed-Mirrors}

abbrev creation : InitializePoolAccounts
creation = record {
  authority = 41;
  pool_key = 70704;
  pool_in_use = false;
  vault_authority = 7070415;
  stake_mint = hlx;
  reward_mint = hlx;
  stake_vault = 7070411;
  stake_vault_in_use = false;
  reward_vault = 7070412;
  reward_vault_in_use = false;
  token_program = 9;
}

created_ok : (out : InitializePoolOutcome) × (initialize_pool runtime creation (pos 100) ≡ ok out)
unfolding initialize_pool check_initialize_pool
created_ok = (_, refl)

abbrev staking : StakeAccounts
staking = record {
  pool_key = 70704;
  pool = created_ok.0.pool;
  owner = 40;
  position_key = 7470408;
  position_in_use = false;
  stake_mint = hlx;
  owner_token_account = user_account 10_000_000;
  stake_vault = created_ok.0.stake_vault;
  token_program = 9;
}

staked_ok :
    (out : StakeOutcome) × (stake runtime token_program staking (pos 200) 0 5_000 flexible ≡ ok out)
unfolding created_ok stake check_stake stake_handler update_rewards accrue advance_clock duration
    apply_weight weight_bps ◌-ℤ◌ ◌+ℤ◌
staked_ok = (_, refl)

abbrev unstaking : UnstakeAccounts
unstaking = record {
  pool_key = 70704;
  pool = staked_ok.0.pool;
  owner = 40;
  position_key = 7470408;
  position = staked_ok.0.position;
  stake_mint = hlx;
  stake_vault = staked_ok.0.stake_vault;
  owner_token_account = staked_ok.0.owner_token_account;
  vault_authority = 7070415;
  token_program = 9;
}

unstaked_ok :
    (out : UnstakeOutcome) × (unstake runtime token_program unstaking (pos 300) 2_000 ≡ ok out)
unfolding created_ok staked_ok unstake check_unstake check_position unstake_handler update_rewards
    accrue advance_clock settle earned is_unlocked apply_weight weight_bps ◌-ℤ◌
unstaked_ok = (_, refl)

abbrev event : ℕ → HelixEvent → EmittedEvent
event n e = record { event = e; program = helix_staking; log_index = n; depth = 1 }

abbrev opened : List EmittedEvent
opened = event 4 (HelixEvent.staked staked_ok.0.event) ∷ []

apply_transaction_twice_example :
    apply_transaction runtime (apply_transaction runtime new "sig" opened).1 "sig" opened
    ≡ (0, (apply_transaction runtime new "sig" opened).1)
apply_transaction_twice_example = apply_transaction_twice runtime new "sig" opened

abbrev first : String × List EmittedEvent
first = ("sig", opened)

abbrev second : String × List EmittedEvent
second = ("later", event 4 (HelixEvent.unstaked unstaked_ok.0.event) ∷ [])

replay-redelivered_example :
    replay runtime ([] ++ first ∷ ((second ∷ []) ++ first ∷ []))
    ≡ replay runtime ([] ++ first ∷ ((second ∷ []) ++ []))
replay-redelivered_example = replay-redelivered runtime [] first (second ∷ []) []

abbrev l₀ : Ledger
l₀ = record { pools = []; positions = [] }

abbrev l₁ : Ledger
l₁ = opens_pool l₀ 70704 created_ok.0.pool

abbrev l₂ : Ledger
l₂ = writes l₁ 70704 staked_ok.0.pool 7470408 staked_ok.0.position

abbrev l₃ : Ledger
l₃ = writes l₂ 70704 unstaked_ok.0.pool 7470408 unstaked_ok.0.position

abbrev id₁ : EventId
id₁ = record { signature = "a"; log_index = 2 }

abbrev id₂ : EventId
id₂ = record { signature = "b"; log_index = 2 }

abbrev id₃ : EventId
id₃ = record { signature = "b"; log_index = 9 }

abbrev e₁ : HelixEvent
e₁ = HelixEvent.pool_initialized created_ok.0.event

abbrev e₂ : HelixEvent
e₂ = HelixEvent.staked staked_ok.0.event

abbrev e₃ : HelixEvent
e₃ = HelixEvent.unstaked unstaked_ok.0.event

abbrev a₁ : Analytics
a₁ = (apply runtime new id₁ e₁).1

abbrev a₂ : Analytics
a₂ = (apply runtime a₁ id₂ e₂).1

abbrev a₃ : Analytics
a₃ = (apply runtime a₂ id₂ e₂).1

abbrev a₄ : Analytics
a₄ = (apply runtime a₃ id₃ e₃).1

history : Indexed runtime token_program l₃ a₄
unfolding created_ok staked_ok unstaked_ok apply contains insert_id lookup insert same_id
    fold_pool_initialized fold_staked
history =
    follows id₃ e₃
      (redelivers id₂ e₂
        (follows id₂ e₂
          (follows id₁ e₁ begins
            (Emits.initializes creation (pos 100) created_ok.0 refl created_ok.1 refl refl) refl)
          (Emits.stakes staking (pos 200) 0 5_000 flexible staked_ok.0 refl refl staked_ok.1 refl
            refl)
          refl)
        refl)
      (Emits.unstakes unstaking (pos 300) 2_000 unstaked_ok.0 refl refl unstaked_ok.1 refl refl)
      refl

Indexed-Mirrors_example : Mirrors l₃ a₄
Indexed-Mirrors_example = Indexed-Mirrors runtime token_program l₃ a₄ history

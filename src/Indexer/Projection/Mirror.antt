-- ===== src/Indexer/Projection/Mirror.antt =====
-- The accounts of programs/staking, with the events of its instructions, against the projection of
-- indexer/src/projection.rs. An account is found by its address; an instruction takes the accounts
-- as they are and emits its event. An event is delivered once with a new id, and then any number of
-- times with an id that is known.
pub mod Events
pub mod Pools
pub mod Deposits
pub mod Withdrawals
pub mod Frames
pub mod Admin
pub mod History
use helix_protocol.Prelude.{
  ℕ, ◌+◌, ◌≡◌, ◌⊎◌, refl, Bool, true, false, Option, none, some, List, [], inl, inr, arith, ◌==◌,
  Bool-cases, Option-cases,
}
use helix_protocol.Prelude.Int.{ℤ}
use helix_protocol.Prelude.Fallible.{ok}
use helix_protocol.Anchor.{Pubkey, Runtime, TokenProgram}
use helix_protocol.Staking.Types.{Pool, Position, LockTier}
use helix_protocol.Staking.Events.{
  PositionClosed, RewardRateChanged, PoolPauseToggled, AuthorityTransferProposed,
  AuthorityTransferAccepted,
}
use helix_protocol.Staking.Stake.{StakeAccounts, StakeOutcome, stake}
use helix_protocol.Staking.Withdraw.{
  UnstakeAccounts, UnstakeOutcome, unstake, ClaimAccounts, ClaimOutcome, claim,
  ClosePositionAccounts, close_position,
}
use helix_protocol.Staking.Admin.{
  InitializePoolAccounts, InitializePoolOutcome, initialize_pool, FundRewardsAccounts,
  FundRewardsOutcome, fund_rewards, SetRewardRateAccounts, set_reward_rate, PoolSigner, set_paused,
  propose_authority, accept_authority,
}
use helix_protocol.Indexer.Maps.{
  Map, EventId, contains, lookup, insert, remove, lookup-insert, lookup-remove,
}
use helix_protocol.Indexer.Event.{HelixEvent}
use helix_protocol.Indexer.Projection.{PoolStats, PositionStats, Analytics, new}
use helix_protocol.Indexer.Projection.Apply.{apply}

pub record Ledger : Type 0 where
  pub pools : Map Pool
  pub positions : Map Position

abbrev pub opens_pool : Ledger → Pubkey → Pool → Ledger
opens_pool l k p = record l { pools = insert l.pools k p }

abbrev pub writes : Ledger → Pubkey → Pool → Pubkey → Position → Ledger
writes l k p j x = record { pools = insert l.pools k p; positions = insert l.positions j x }

-- An instruction on the accounts of a ledger, with its event and the accounts afterwards.
pub data Emits (R : Runtime) (T : TokenProgram) (l : Ledger) (e : HelixEvent) (m : Ledger)
    : Type 0 where
  initializes :
      (a : InitializePoolAccounts) (now : ℤ) (out : InitializePoolOutcome)
      → lookup l.pools a.pool_key ≡ none
      → initialize_pool R a now ≡ ok out
      → e ≡ HelixEvent.pool_initialized out.event
      → m ≡ opens_pool l a.pool_key out.pool
      → Emits R T l e m
  stakes :
      (a : StakeAccounts) (now : ℤ) (id amount : ℕ) (tier : LockTier) (out : StakeOutcome)
      → lookup l.pools a.pool_key ≡ some a.pool
      → lookup l.positions a.position_key ≡ none
      → stake R T a now id amount tier ≡ ok out
      → e ≡ HelixEvent.staked out.event
      → m ≡ writes l a.pool_key out.pool a.position_key out.position
      → Emits R T l e m
  unstakes :
      (a : UnstakeAccounts) (now : ℤ) (amount : ℕ) (out : UnstakeOutcome)
      → lookup l.pools a.pool_key ≡ some a.pool
      → lookup l.positions a.position_key ≡ some a.position
      → unstake R T a now amount ≡ ok out
      → e ≡ HelixEvent.unstaked out.event
      → m ≡ writes l a.pool_key out.pool a.position_key out.position
      → Emits R T l e m
  claims :
      (a : ClaimAccounts) (now : ℤ) (out : ClaimOutcome)
      → lookup l.pools a.pool_key ≡ some a.pool
      → lookup l.positions a.position_key ≡ some a.position
      → claim R T a now ≡ ok out
      → e ≡ HelixEvent.rewards_claimed out.event
      → m ≡ writes l a.pool_key out.pool a.position_key out.position
      → Emits R T l e m
  closes :
      (a : ClosePositionAccounts) (now : ℤ) (event : PositionClosed)
      → lookup l.positions a.position_key ≡ some a.position
      → close_position R a now ≡ ok event
      → e ≡ HelixEvent.position_closed event
      → m ≡ record l { positions = remove l.positions a.position_key }
      → Emits R T l e m
  funds :
      (a : FundRewardsAccounts) (now : ℤ) (amount : ℕ) (out : FundRewardsOutcome)
      → lookup l.pools a.pool_key ≡ some a.pool
      → fund_rewards R T a now amount ≡ ok out
      → e ≡ HelixEvent.rewards_funded out.event
      → m ≡ opens_pool l a.pool_key out.pool
      → Emits R T l e m
  retunes :
      (a : SetRewardRateAccounts) (now : ℤ) (rate : ℕ) (period_end : ℤ)
      (out : Pool × RewardRateChanged)
      → lookup l.pools a.pool_key ≡ some a.pool
      → set_reward_rate R a now rate period_end ≡ ok out
      → e ≡ HelixEvent.reward_rate_changed out.1
      → m ≡ opens_pool l a.pool_key out.0
      → Emits R T l e m
  pauses :
      (a : PoolSigner) (now : ℤ) (paused : Bool) (out : Pool × PoolPauseToggled)
      → lookup l.pools a.pool_key ≡ some a.pool
      → set_paused R a now paused ≡ ok out
      → e ≡ HelixEvent.pool_pause_toggled out.1
      → m ≡ opens_pool l a.pool_key out.0
      → Emits R T l e m
  proposes :
      (a : PoolSigner) (now : ℤ) (new : Pubkey) (out : Pool × AuthorityTransferProposed)
      → lookup l.pools a.pool_key ≡ some a.pool
      → propose_authority R a now new ≡ ok out
      → e ≡ HelixEvent.authority_transfer_proposed out.1
      → m ≡ opens_pool l a.pool_key out.0
      → Emits R T l e m
  accepts :
      (a : PoolSigner) (now : ℤ) (out : Pool × AuthorityTransferAccepted)
      → lookup l.pools a.pool_key ≡ some a.pool
      → accept_authority R a now ≡ ok out
      → e ≡ HelixEvent.authority_transfer_accepted out.1
      → m ≡ opens_pool l a.pool_key out.0
      → Emits R T l e m

-- A history of the staking program with the projection that follows it.
pub data Indexed (R : Runtime) (T : TokenProgram) : Ledger → Analytics → Type 0 where
  begins : Indexed R T (record { pools = []; positions = [] }) new
  follows :
      {l m : Ledger} {s : Analytics} (id : EventId) (e : HelixEvent)
      → Indexed R T l s
      → Emits R T l e m
      → contains s.applied id ≡ false
      → Indexed R T m (apply R s id e).1
  redelivers :
      {l : Ledger} {s : Analytics} (id : EventId) (e : HelixEvent)
      → Indexed R T l s
      → contains s.applied id ≡ true
      → Indexed R T l (apply R s id e).1

-- A row agrees with the account. The period's end is that of the last change of the rate.
pub record MirrorsPool (p : Pool) (x : PoolStats) : Type 0 where
  pub authority : x.authority ≡ some p.authority
  pub total_staked : x.total_staked ≡ p.total_staked
  pub total_weighted : x.total_weighted ≡ p.total_weighted
  pub position_count : x.position_count ≡ p.position_count
  pub reward_rate : x.reward_rate ≡ p.reward_rate
  pub reward_period_end : (x.reward_period_end ≡ p.reward_period_end) ⊎ (p.reward_rate ≡ 0)
  pub total_rewards_funded : x.total_rewards_funded ≡ p.total_rewards_funded
  pub total_rewards_paid : x.total_rewards_paid ≡ p.total_rewards_paid
  pub paused : x.paused ≡ p.paused
  pub whole : x.partial_history ≡ false

pub record MirrorsPosition (p : Position) (x : PositionStats) : Type 0 where
  pub pool : x.pool ≡ p.pool
  pub owner : x.owner ≡ p.owner
  pub position_id : x.position_id ≡ p.position_id
  pub amount : x.amount ≡ p.amount
  pub weighted_amount : x.weighted_amount ≡ p.weighted_amount
  pub tier : x.tier ≡ p.tier
  pub lock_end : x.lock_end ≡ p.lock_end

-- Both are there and related, or neither is.
abbrev pub Both : {A B : Type 0} → (A → B → Type 0) → Option A → Option B → Type 0
Both P none none = Unit
Both P (some a) (some b) = P a b
Both P none (some b) = ⊥
Both P (some a) none = ⊥

-- Every account has its row and every row its account, they agree, and nothing is orphaned.
pub record Mirrors (l : Ledger) (s : Analytics) : Type 0 where
  pub pools : (k : Pubkey) → Both MirrorsPool (lookup l.pools k) (lookup s.pools k)
  pub positions : (k : Pubkey) → Both MirrorsPosition (lookup l.positions k) (lookup s.positions k)
  pub complete : s.orphaned ≡ []

module _ {A B : Type 0} (P : A → B → Type 0) (m : Map A) (n : Map B) where
  pub insert-Both :
      (j : Pubkey) (a : A) (b : B)
      → P a b
      → ((k : Pubkey) → Both P (lookup m k) (lookup n k))
      → (k : Pubkey) → Both P (lookup (insert m j a) k) (lookup (insert n j b) k)
  insert-Both j a b h all k =
      rw (lookup-insert m j k a, lookup-insert n j k b)
        (elim (Bool-cases (j == k)) [ inl e ↦ rw e h | inr e ↦ rw e (all k) ])

  pub remove-Both :
      (j : Pubkey)
      → ((k : Pubkey) → Both P (lookup m k) (lookup n k))
      → (k : Pubkey) → Both P (lookup (remove m j) k) (lookup (remove n j) k)
  remove-Both j all k =
      rw (lookup-remove m j k, lookup-remove n j k)
        (elim (Bool-cases (j == k)) [ inl e ↦ rw e tt | inr e ↦ rw e (all k) ])

  -- What one side has, the other has.
  pub partner :
      (j : Pubkey) (a : A)
      → lookup m j ≡ some a
      → Both P (lookup m j) (lookup n j)
      → (b : B) × (lookup n j ≡ some b) × P a b
  partner j a e h = elim (Option-cases (lookup n j)) [
    | inl f ↦ absurd (rw (e, f) at h)
    | inr (b, f) ↦ (b, f, rw (e, f) at h)
  ]

  pub no_partner :
      (j : Pubkey) → lookup m j ≡ none → Both P (lookup m j) (lookup n j) → lookup n j ≡ none
  no_partner j e h = elim (Option-cases (lookup n j)) [
    | inl f ↦ f
    | inr (b, f) ↦ absurd (rw (e, f) at h)
  ]

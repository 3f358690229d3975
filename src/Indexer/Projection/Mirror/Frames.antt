-- ===== src/Indexer/Projection/Mirror/Frames.antt =====
-- What the administrative instructions of programs/staking leave, and the arms of `fold` for their
-- events.
use helix_protocol.Prelude.{◌≡◌, refl, inl, inr, none, some, Bool, arith, Option-cases}
use helix_protocol.Prelude.Int.{ℤ}
use helix_protocol.Prelude.Fallible.{ok}
use helix_protocol.Anchor.{Pubkey, Runtime}
use helix_protocol.Staking.Types.{Pool}
use helix_protocol.Staking.Events.{
  PoolInitialized, PositionClosed, PoolPauseToggled, AuthorityTransferProposed,
  AuthorityTransferAccepted,
}
use helix_protocol.Staking.Withdraw.{ClosePositionAccounts, close_position}
use helix_protocol.Staking.Admin.{
  InitializePoolAccounts, InitializePoolOutcome, initialize_pool, PoolSigner, set_paused,
  propose_authority, accept_authority,
}
use helix_protocol.Indexer.Maps.{EventId, lookup, insert, remove, or_insert}
use helix_protocol.Indexer.Projection.{PositionStats, default_pool, Analytics}
use helix_protocol.Indexer.Projection.Staking.{fold_pool_initialized, fold_position_closed}
use helix_protocol.Indexer.Projection.Mirror.{MirrorsPool}

pub fold_pool_initialized-eq :
    (s : Analytics) (e : PoolInitialized)
    → lookup s.pools e.pool ≡ none
    → fold_pool_initialized s e ≡ record s {
      pools = insert s.pools e.pool (record default_pool { authority = some e.authority });
    }
unfolding fold_pool_initialized or_insert
fold_pool_initialized-eq s e h = ground (arith, h)

pub fold_position_closed-eq :
    (s : Analytics) (id : EventId) (e : PositionClosed) (x : PositionStats)
    → lookup s.positions e.position ≡ some x
    → fold_position_closed s id e ≡ record s { positions = remove s.positions e.position }
unfolding fold_position_closed
fold_position_closed-eq s id e x h = ground (arith, h)

pub fresh_pool :
    (R : Runtime) (a : InitializePoolAccounts) (now : ℤ) (out : InitializePoolOutcome)
    → initialize_pool R a now ≡ ok out
    → (out.event.pool ≡ a.pool_key)
      × MirrorsPool out.pool (record default_pool { authority = some out.event.authority })
unfolding initialize_pool
fresh_pool R a now out h = (
  ground arith,
  record {
    authority = ground arith;
    total_staked = ground arith;
    total_weighted = ground arith;
    position_count = ground arith;
    reward_rate = ground arith;
    reward_period_end = inr (ground arith);
    total_rewards_funded = ground arith;
    total_rewards_paid = ground arith;
    paused = ground arith;
    whole = refl;
  },
)

pub close_position-event :
    (R : Runtime) (a : ClosePositionAccounts) (now : ℤ) (e : PositionClosed)
    → close_position R a now ≡ ok e
    → e.position ≡ a.position_key
unfolding close_position
close_position-event R a now e h = ground arith

pub set_paused-frame :
    (R : Runtime) (a : PoolSigner) (now : ℤ) (paused : Bool) (out : Pool × PoolPauseToggled)
    → set_paused R a now paused ≡ ok out
    → (out.1.pool ≡ a.pool_key)
      × (out.1.paused ≡ paused)
      × (out.0 ≡ record (a.pool) { paused = paused })
unfolding set_paused
set_paused-frame R a now paused out h = (ground arith, ground arith, ground arith)

pub accept_authority-frame :
    (R : Runtime) (a : PoolSigner) (now : ℤ) (out : Pool × AuthorityTransferAccepted)
    → accept_authority R a now ≡ ok out
    → (out.1.pool ≡ a.pool_key)
      × (out.0 ≡ record (a.pool) { authority = out.1.new_authority; pending_authority = none })
unfolding accept_authority
accept_authority-frame R a now out h = elim (Option-cases a.pool.pending_authority) [
  | inl e ↦ ground arith
  | inr (k, e) ↦ (ground arith, ground arith)
]

pub propose_authority-frame :
    (R : Runtime) (a : PoolSigner) (now : ℤ) (new : Pubkey) (out : Pool × AuthorityTransferProposed)
    → propose_authority R a now new ≡ ok out
    → out.0 ≡ record (a.pool) { pending_authority = some new }
unfolding propose_authority
propose_authority-frame R a now new out h = ground arith

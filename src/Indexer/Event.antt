-- ===== src/Indexer/Event.antt =====
-- indexer/src/event.rs: every event of the four programs. `decode` is a parameter where it is used:
-- the discriminators and the wire format are the framework's.
use helix_protocol.Prelude.{ℕ, Option, none, some, ◌==◌, if◌then◌else◌}
use helix_protocol.Prelude.Int.{ℤ}
use helix_protocol.Anchor.{
  Pubkey, Program, helix_token_manager, helix_staking, helix_governance, helix_treasury,
}
use helix_protocol.TokenManager.Events.{
  TokenInitialized, MinterRegistered, MinterUpdated, MinterRevoked, TokensMinted, TokensBurned,
  AdminTransferProposed, AdminTransferCancelled, AdminTransferAccepted, PauseToggled,
}
use helix_protocol.Staking.Events.{
  PoolInitialized, Staked, Unstaked, PositionClosed, RewardsClaimed, RewardsFunded,
  RewardRateChanged, PoolPauseToggled, AuthorityTransferProposed, AuthorityTransferAccepted,
}
use helix_protocol.Governance.Events.{
  RealmInitialized, RealmParamsUpdated, RealmAuthorityChanged, ProposalCreated, ProposalActivated,
  VoteCast, ProposalFinalized, ProposalQueued, ProposalExecuted, ProposalCancelled,
}
use helix_protocol.Treasury.Events.{
  TreasuryInitialized, Deposited, Spent, StreamCreated, StreamClaimed, StreamRevoked,
  SpendCapChanged, GovernanceExecutorChanged,
}

-- The addresses of the four programs.
pub record ProgramIds : Type 0 where
  pub token_manager : Pubkey
  pub staking : Pubkey
  pub governance : Pubkey
  pub treasury : Pubkey

-- `Program::id`.
unfoldable pub id_of : ProgramIds → Program → Pubkey
id_of ids helix_token_manager = ids.token_manager
id_of ids helix_staking = ids.staking
id_of ids helix_governance = ids.governance
id_of ids helix_treasury = ids.treasury

-- `Program::from_id`.
unfoldable pub from_id : ProgramIds → Pubkey → Option Program
from_id ids id =
    if id == ids.token_manager
    then some helix_token_manager
    else if id == ids.staking
    then some helix_staking
    else if id == ids.governance
    then some helix_governance
    else if id == ids.treasury
    then some helix_treasury
    else none

pub data HelixEvent : Type 0 where
  token_initialized : TokenInitialized → HelixEvent
  minter_registered : MinterRegistered → HelixEvent
  minter_updated : MinterUpdated → HelixEvent
  minter_revoked : MinterRevoked → HelixEvent
  tokens_minted : TokensMinted → HelixEvent
  tokens_burned : TokensBurned → HelixEvent
  admin_transfer_proposed : AdminTransferProposed → HelixEvent
  admin_transfer_cancelled : AdminTransferCancelled → HelixEvent
  admin_transfer_accepted : AdminTransferAccepted → HelixEvent
  pause_toggled : PauseToggled → HelixEvent
  pool_initialized : PoolInitialized → HelixEvent
  staked : Staked → HelixEvent
  unstaked : Unstaked → HelixEvent
  position_closed : PositionClosed → HelixEvent
  rewards_claimed : RewardsClaimed → HelixEvent
  rewards_funded : RewardsFunded → HelixEvent
  reward_rate_changed : RewardRateChanged → HelixEvent
  pool_pause_toggled : PoolPauseToggled → HelixEvent
  authority_transfer_proposed : AuthorityTransferProposed → HelixEvent
  authority_transfer_accepted : AuthorityTransferAccepted → HelixEvent
  realm_initialized : RealmInitialized → HelixEvent
  realm_params_updated : RealmParamsUpdated → HelixEvent
  realm_authority_changed : RealmAuthorityChanged → HelixEvent
  proposal_created : ProposalCreated → HelixEvent
  proposal_activated : ProposalActivated → HelixEvent
  vote_cast : VoteCast → HelixEvent
  proposal_finalized : ProposalFinalized → HelixEvent
  proposal_queued : ProposalQueued → HelixEvent
  proposal_executed : ProposalExecuted → HelixEvent
  proposal_cancelled : ProposalCancelled → HelixEvent
  treasury_initialized : TreasuryInitialized → HelixEvent
  deposited : Deposited → HelixEvent
  spent : Spent → HelixEvent
  stream_created : StreamCreated → HelixEvent
  stream_claimed : StreamClaimed → HelixEvent
  stream_revoked : StreamRevoked → HelixEvent
  spend_cap_changed : SpendCapChanged → HelixEvent
  governance_executor_changed : GovernanceExecutorChanged → HelixEvent

-- `HelixEvent::program`.
unfoldable pub program : HelixEvent → Program
program (HelixEvent.token_initialized e) = helix_token_manager
program (HelixEvent.minter_registered e) = helix_token_manager
program (HelixEvent.minter_updated e) = helix_token_manager
program (HelixEvent.minter_revoked e) = helix_token_manager
program (HelixEvent.tokens_minted e) = helix_token_manager
program (HelixEvent.tokens_burned e) = helix_token_manager
program (HelixEvent.admin_transfer_proposed e) = helix_token_manager
program (HelixEvent.admin_transfer_cancelled e) = helix_token_manager
program (HelixEvent.admin_transfer_accepted e) = helix_token_manager
program (HelixEvent.pause_toggled e) = helix_token_manager
program (HelixEvent.pool_initialized e) = helix_staking
program (HelixEvent.staked e) = helix_staking
program (HelixEvent.unstaked e) = helix_staking
program (HelixEvent.position_closed e) = helix_staking
program (HelixEvent.rewards_claimed e) = helix_staking
program (HelixEvent.rewards_funded e) = helix_staking
program (HelixEvent.reward_rate_changed e) = helix_staking
program (HelixEvent.pool_pause_toggled e) = helix_staking
program (HelixEvent.authority_transfer_proposed e) = helix_staking
program (HelixEvent.authority_transfer_accepted e) = helix_staking
program (HelixEvent.realm_initialized e) = helix_governance
program (HelixEvent.realm_params_updated e) = helix_governance
program (HelixEvent.realm_authority_changed e) = helix_governance
program (HelixEvent.proposal_created e) = helix_governance
program (HelixEvent.proposal_activated e) = helix_governance
program (HelixEvent.vote_cast e) = helix_governance
program (HelixEvent.proposal_finalized e) = helix_governance
program (HelixEvent.proposal_queued e) = helix_governance
program (HelixEvent.proposal_executed e) = helix_governance
program (HelixEvent.proposal_cancelled e) = helix_governance
program (HelixEvent.treasury_initialized e) = helix_treasury
program (HelixEvent.deposited e) = helix_treasury
program (HelixEvent.spent e) = helix_treasury
program (HelixEvent.stream_created e) = helix_treasury
program (HelixEvent.stream_claimed e) = helix_treasury
program (HelixEvent.stream_revoked e) = helix_treasury
program (HelixEvent.spend_cap_changed e) = helix_treasury
program (HelixEvent.governance_executor_changed e) = helix_treasury

-- `HelixEvent::timestamp`.
unfoldable pub timestamp : HelixEvent → ℤ
timestamp (HelixEvent.token_initialized e) = e.timestamp
timestamp (HelixEvent.minter_registered e) = e.timestamp
timestamp (HelixEvent.minter_updated e) = e.timestamp
timestamp (HelixEvent.minter_revoked e) = e.timestamp
timestamp (HelixEvent.tokens_minted e) = e.timestamp
timestamp (HelixEvent.tokens_burned e) = e.timestamp
timestamp (HelixEvent.admin_transfer_proposed e) = e.timestamp
timestamp (HelixEvent.admin_transfer_cancelled e) = e.timestamp
timestamp (HelixEvent.admin_transfer_accepted e) = e.timestamp
timestamp (HelixEvent.pause_toggled e) = e.timestamp
timestamp (HelixEvent.pool_initialized e) = e.timestamp
timestamp (HelixEvent.staked e) = e.timestamp
timestamp (HelixEvent.unstaked e) = e.timestamp
timestamp (HelixEvent.position_closed e) = e.timestamp
timestamp (HelixEvent.rewards_claimed e) = e.timestamp
timestamp (HelixEvent.rewards_funded e) = e.timestamp
timestamp (HelixEvent.reward_rate_changed e) = e.timestamp
timestamp (HelixEvent.pool_pause_toggled e) = e.timestamp
timestamp (HelixEvent.authority_transfer_proposed e) = e.timestamp
timestamp (HelixEvent.authority_transfer_accepted e) = e.timestamp
timestamp (HelixEvent.realm_initialized e) = e.timestamp
timestamp (HelixEvent.realm_params_updated e) = e.timestamp
timestamp (HelixEvent.realm_authority_changed e) = e.timestamp
timestamp (HelixEvent.proposal_created e) = e.timestamp
timestamp (HelixEvent.proposal_activated e) = e.timestamp
timestamp (HelixEvent.vote_cast e) = e.timestamp
timestamp (HelixEvent.proposal_finalized e) = e.timestamp
timestamp (HelixEvent.proposal_queued e) = e.timestamp
timestamp (HelixEvent.proposal_executed e) = e.timestamp
timestamp (HelixEvent.proposal_cancelled e) = e.timestamp
timestamp (HelixEvent.treasury_initialized e) = e.timestamp
timestamp (HelixEvent.deposited e) = e.timestamp
timestamp (HelixEvent.spent e) = e.timestamp
timestamp (HelixEvent.stream_created e) = e.timestamp
timestamp (HelixEvent.stream_claimed e) = e.timestamp
timestamp (HelixEvent.stream_revoked e) = e.timestamp
timestamp (HelixEvent.spend_cap_changed e) = e.timestamp
timestamp (HelixEvent.governance_executor_changed e) = e.timestamp

-- `EmittedEvent` of indexer/src/logs.rs.
pub record EmittedEvent : Type 0 where
  pub event : HelixEvent
  pub program : Program
  pub log_index : ℕ
  pub depth : ℕ

-- ===== src/Indexer/Projection/Treasury.antt =====
-- The arms of `fold` in indexer/src/projection.rs for the events of programs/treasury.
use helix_protocol.Prelude.{Bool, true, false, none, some, if◌then◌else◌}
use helix_protocol.Prelude.Machine.{u64_max, saturating_add}
use helix_protocol.Anchor.{Pubkey}
use helix_protocol.Treasury.Events.{
  TreasuryInitialized, Deposited, Spent, StreamCreated, StreamClaimed, StreamRevoked,
  SpendCapChanged, GovernanceExecutorChanged,
}
use helix_protocol.Indexer.Maps.{lookup, contains_key, or_insert, insert, EventId}
use helix_protocol.Indexer.Projection.{
  StreamStats, TreasuryStats, default_treasury, Analytics, orphan, treasury_mut,
}

unfoldable pub fold_treasury_initialized : Analytics → TreasuryInitialized → Analytics
unfolding insert or_insert
fold_treasury_initialized s e = record s {
  treasuries =
      insert s.treasuries e.treasury (record (or_insert default_treasury s.treasuries e.treasury) {
        governance_executor = some e.governance_executor;
        epoch_spend_cap = e.epoch_spend_cap;
      });
}

unfoldable pub fold_deposited : Analytics → EventId → Deposited → Analytics
unfolding treasury_mut
fold_deposited s id e =
    treasury_mut s e.treasury id (λ t. record t { total_deposited = e.total_deposited })

unfoldable pub fold_spent : Analytics → EventId → Spent → Analytics
unfolding treasury_mut
fold_spent s id e = treasury_mut s e.treasury id (λ t. record t { total_spent = e.total_spent })

abbrev pub open_stream : StreamCreated → StreamStats
open_stream e = record {
  beneficiary = e.beneficiary;
  stream_id = e.stream_id;
  total_amount = e.total_amount;
  claimed = 0;
  revoked = false;
}

unfoldable pub fold_stream_created : Analytics → EventId → StreamCreated → Analytics
unfolding treasury_mut insert
fold_stream_created s id e =
    treasury_mut s e.treasury id
      (λ t. record t { open_streams = insert t.open_streams e.stream (open_stream e) })

-- `open_streams.get_mut(&stream)` and the write to the entry.
unfoldable pub write_stream : (StreamStats → StreamStats) → Pubkey → TreasuryStats → TreasuryStats
unfolding lookup insert
write_stream write stream t = elim (lookup t.open_streams stream) [
  | none ↦ t
  | some x ↦ record t { open_streams = insert t.open_streams stream (write x) }
]

-- Whether the treasury has the stream: where it has not, the event is an orphan.
unfoldable pub has_stream : Analytics → Pubkey → Pubkey → Bool
unfolding or_insert contains_key
has_stream s treasury stream =
    contains_key (or_insert default_treasury s.treasuries treasury).open_streams stream

unfoldable pub fold_stream_claimed : Analytics → EventId → StreamClaimed → Analytics
unfolding treasury_mut write_stream has_stream orphan
fold_stream_claimed s id e =
    let next = treasury_mut s e.treasury id (λ t.
      write_stream (λ x. record x { claimed = e.total_claimed }) e.stream
        (record t {
          total_stream_claims = saturating_add u64_max t.total_stream_claims e.amount;
        })) in
    if has_stream s e.treasury e.stream then next else orphan next id

unfoldable pub fold_stream_revoked : Analytics → EventId → StreamRevoked → Analytics
unfolding treasury_mut write_stream has_stream orphan
fold_stream_revoked s id e =
    let next = treasury_mut s e.treasury id (
      write_stream
        (λ x. record x {
          revoked = true;
          total_amount = saturating_add u64_max x.claimed e.vested_retained;
        })
        e.stream) in
    if has_stream s e.treasury e.stream then next else orphan next id

unfoldable pub fold_spend_cap_changed : Analytics → EventId → SpendCapChanged → Analytics
unfolding treasury_mut
fold_spend_cap_changed s id e =
    treasury_mut s e.treasury id (λ t. record t { epoch_spend_cap = e.new_cap })

unfoldable pub fold_governance_executor_changed :
    Analytics → EventId → GovernanceExecutorChanged → Analytics
unfolding treasury_mut
fold_governance_executor_changed s id e =
    treasury_mut s e.treasury id (λ t. record t { governance_executor = some e.new_executor })

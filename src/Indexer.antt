-- ===== src/Indexer.antt =====
-- indexer/src: the decoded events, and what is made of them.
pub mod Maps
pub mod Event
pub mod Text
pub mod Logs
pub mod Projection
pub mod Ingest
pub mod Backfill
mod Tests

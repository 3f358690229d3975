-- ===== src/Governance.antt =====
-- programs/governance: realms, proposals and their life cycle, votes, and the gate of execution.
pub mod Types
pub mod Events
pub mod State
pub mod Realm
pub mod Proposals
pub mod Vote
pub mod Lifecycle
pub mod Execute
pub mod Process
mod Tests

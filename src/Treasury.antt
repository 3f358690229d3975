-- ===== src/Treasury.antt =====
-- programs/treasury: the vault that governance spends from, and the vesting streams.
pub mod Types
pub mod Events
pub mod State
pub mod Funds
pub mod Vesting
pub mod Effects
pub mod System
mod Tests

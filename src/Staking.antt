-- ===== src/Staking.antt =====
-- programs/staking: the reward pool. `Types` and `State` are its data and accounting.
pub mod Types
pub mod State
pub mod Events
pub mod Stake
pub mod Withdraw
pub mod Admin
pub mod Effects
pub mod Books
pub mod System
mod Tests

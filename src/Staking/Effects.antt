-- ===== src/Staking/Effects.antt =====
-- The effects of the staking instructions, where they succeed.
pub mod Stake
pub mod Withdraw
pub mod Admin

-- ===== src/TokenManager.antt =====
-- programs/token-manager: the HLX mint, its registered minters and the admin.
pub mod Types
pub mod Events
pub mod State
pub mod Registry
pub mod Issuance
pub mod Supply
mod Tests

-- ===== src/Wallet.antt =====
-- The wallet service (services/wallet).
pub mod Domain
pub mod Tx
pub mod Store
pub mod Locks
pub mod Reserve
pub mod Commit
pub mod Release
pub mod Api
pub mod Tables
pub mod Books
pub mod Solvency
pub mod History
pub mod Replay
pub mod Payments
pub mod Effects
pub mod Server
pub mod Progress
mod Scenario
mod Tests

-- ===== src/Sync.antt =====
-- The sync driver: clients/rust/src/protocol_sync.rs.
pub mod Types
pub mod Checks
pub mod Outcome
pub mod Driver
pub mod Atomic
pub mod Steps
pub mod Moves
pub mod Reaches
pub mod Runs
pub mod Safety
pub mod Success
pub mod Pulled
pub mod Counts
pub mod Pages
pub mod Retry
pub mod Succeeds
pub mod Converges
pub mod Calls
pub mod AtomicSafety
mod Tests

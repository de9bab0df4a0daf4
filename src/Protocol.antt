-- ===== src/Protocol.antt =====
-- The protocol v1 mutation queue: clients/rust/src/protocol.rs.
pub mod Types
pub mod Checks
pub mod Queue
pub mod Validate
pub mod Acknowledge
pub mod Decimal
pub mod Wellformed
pub mod Writes
pub mod Accepted
pub mod Confirm
pub mod Acked
pub mod AckSafety
pub mod Replies
pub mod Progress
pub mod Prune
pub mod Snapshot
pub mod Merge
pub mod Merged
pub mod Imported
pub mod Tests

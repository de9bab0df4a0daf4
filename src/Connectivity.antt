-- ===== src/Connectivity.antt =====
-- The connectivity watcher: clients/rust-connectivity/src/lib.rs.
pub mod Watcher
pub mod Saves
pub mod Override
pub mod Signals
mod Tests

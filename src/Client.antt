-- ===== src/Client.antt =====
-- The client facade: clients/rust/src/lib.rs.
pub mod Options
pub mod Store
pub mod Facade
pub mod Pending
pub mod Overlay
mod Tests

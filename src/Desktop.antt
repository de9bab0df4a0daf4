-- ===== src/Desktop.antt =====
-- clients/desktop-rust: the lifecycle of a background run, its durable lease and its host contract.
pub mod Lifecycle
pub mod Phases
pub mod Fenced
pub mod Generations
pub mod Capability
pub mod Leases
pub mod Exclusion
pub mod Runner
pub mod Rounds
pub mod Reasons
pub mod Session
pub mod Logout
mod Tests
mod SessionTests

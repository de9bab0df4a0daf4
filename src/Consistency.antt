-- ===== src/Consistency.antt =====
-- The consistency modes: clients/rust/src/consistency.rs.
pub mod Policy
pub mod Values
pub mod Reads
pub mod Content
pub mod Intents
pub mod Listing
pub mod Views
pub mod Numbers
pub mod Winner
pub mod Revisions
pub mod Bases
mod Printing
mod Tests

-- ===== src/Common.antt =====
-- The shared crate: crates/perfweave-common.
pub mod Clock
pub mod Intern
pub mod Tiles
pub mod Logging
mod Tests

-- ===== src/Inject.antt =====
-- The library that is loaded into a CUDA process: crates/perfweave-cupti-inject.
pub mod Activity
pub mod Callback
pub mod Pm
pub mod Ship
mod Tests

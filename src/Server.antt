-- ===== src/Server.antt =====
-- The server: crates/perfweave-server.
pub mod FastRing
pub mod Lod
pub mod Skew
pub mod Sink
pub mod SpikeDetect
pub mod Live
pub mod Registry
pub mod Migrations
pub mod App
pub mod Timeline
pub mod Graphql
pub mod Ingest
pub mod Imports
mod Tests

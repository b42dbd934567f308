-- ===== src/Flow.antt =====
-- The way of the events from the agent's ring to the server's tables: crates/perfweave-agent/src/grpc_client.rs,
-- crates/perfweave-server/src/ingest/grpc.rs and store/sink.rs together. No code stands here of its own.
mod Lists
mod Received
mod Sunk
pub mod EndToEnd
mod Tests

-- ===== src/Server/Sink.antt =====
-- The sink: crates/perfweave-server/src/store/sink.rs, the batched writer into ClickHouse.
pub mod Rows
pub mod Loop
pub mod Durable
pub mod Handle

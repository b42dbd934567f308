-- ===== src/Server/Graphql.antt =====
-- crates/perfweave-server/src/api/graphql.rs: the queries and the mutation of the control plane.
pub mod Sql
pub mod Rows
pub mod Queries
pub mod Spike
pub mod Profile
mod Tests

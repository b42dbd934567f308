-- ===== src/Server/Timeline.antt =====
-- crates/perfweave-server/src/api/timeline.rs and arrow_tile.rs: the timeline endpoint, from the
-- query's texts to the SQL, and from the database's rows to Arrow columns.
pub mod Filters
pub mod Sql
pub mod Arrow
pub mod Columns
pub mod Handler
pub mod Numbers
pub mod Safe
pub mod Status
mod Tests

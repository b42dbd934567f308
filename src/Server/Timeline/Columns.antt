-- ===== src/Server/Timeline/Columns.antt =====
-- The rows of the three queries, the columns they are pushed into, and the Arrow batches that
-- arrow_tile.rs makes of the columns.
mod Activity
mod Metric
mod Raw
pub mod Table
pub use Activity.*
pub use Metric.*
pub use Raw.*

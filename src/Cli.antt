-- ===== src/Cli.antt =====
-- The command line: crates/perfweave-cli.
pub mod Doctor
pub mod LocalAgent
pub mod Start
pub mod ValidateClocks
mod Tests

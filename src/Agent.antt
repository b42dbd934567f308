-- ===== src/Agent.antt =====
-- The agent: crates/perfweave-agent.
pub mod ClockSync
pub mod Channel
pub mod Nvml
pub mod Replay
pub mod Ring
pub mod Start
pub mod Synthetic
pub mod Tegra
pub mod Uploader
pub mod Cupti
mod Tests

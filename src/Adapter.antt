-- ===== src/Adapter.antt =====
-- internal/adapter: how the orchestrator calls an engine's driver.
pub mod Paths
pub mod Safe
pub mod Outcomes
mod Tests

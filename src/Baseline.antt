-- ===== src/Baseline.antt =====
-- internal/baseline: what changed on the account since the last cycle.
pub mod Compare
pub mod Changes
pub mod Settled
pub mod Hashing
mod Tests

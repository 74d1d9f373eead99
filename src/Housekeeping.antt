-- ===== src/Housekeeping.antt =====
-- internal/housekeeping: what runs after each cycle.
pub mod Run
pub mod Pruned
mod Tests

-- ===== src/Lock.antt =====
-- internal/lock: one instance at a time, by a file that is created exclusively.
pub mod States
pub mod Exclusion
pub mod Refines
pub mod Race
mod Tests

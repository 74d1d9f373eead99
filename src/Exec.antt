-- ===== src/Exec.antt =====
-- internal/exec: the batches in which a cycle feeds its files to an engine.
pub mod Batch
pub mod Batches
mod Tests

-- ===== src/Reach.antt =====
-- internal/reach/reach.go: where a path sits relative to what the web serves.
pub mod Classify
pub mod Inside
mod Tests

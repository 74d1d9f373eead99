-- ===== src/PathMatch.antt =====
-- internal/pathmatch: glob patterns with `**` over the segments of a path.
pub mod Glob
pub mod Segments
pub mod Relation
pub mod Rules
mod Tests

-- ===== src/Schema.antt =====
-- internal/schema: the normalized schema that every component speaks.
pub mod Enums
pub mod Types
pub mod Validate
pub mod Snippet
pub mod Snippets
pub mod Checked
mod Tests
mod SnippetTests

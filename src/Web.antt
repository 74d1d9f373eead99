-- ===== src/Web.antt =====
-- internal/web: the login and its limit.
pub mod Login
pub mod Limit
pub mod Origin
pub mod Settings
pub mod Secrets
mod Tests

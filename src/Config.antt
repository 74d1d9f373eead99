-- ===== src/Config.antt =====
-- internal/config: the validation of the configuration.
pub mod Types
pub mod Validate
pub mod Alerts
pub mod Valid
mod Tests

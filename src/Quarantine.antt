-- ===== src/Quarantine.antt =====
-- internal/quarantine and the table of internal/store/quarantine.go: the reversible vault.
pub mod World
pub mod Vault
pub mod Restore
pub mod Purge
pub mod Safe
pub mod Elsewhere
pub mod RoundTrip
pub mod Retention
mod Tests

-- ===== src/Drivers/Amwscan.antt =====
-- internal/adapter/amwscan: AMWScan (PHP Antimalware Scanner).
pub mod Rules
pub mod Lines
pub mod Parse
pub mod Matched
pub mod Scope
pub mod Scan
pub mod Fresh

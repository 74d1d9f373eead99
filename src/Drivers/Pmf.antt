-- ===== src/Drivers/Pmf.antt =====
-- internal/adapter/pmf: php-malware-finder, which is yara with a set of rules.
pub mod Rules
pub mod Parse
pub mod Matched
pub mod Valid
pub mod Scan

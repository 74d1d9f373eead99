-- ===== src/Drivers/Maldet.antt =====
-- internal/adapter/maldet: Linux Malware Detect.
pub mod Rules
pub mod Report
pub mod Parse
pub mod Scan
pub mod Listed
pub mod Complete
pub mod Judged
pub mod Valid
pub mod Scoped
pub mod Printed
pub mod Scanned

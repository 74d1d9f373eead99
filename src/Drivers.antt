-- ===== src/Drivers.antt =====
-- internal/adapter/{maldet,pmf,amwscan}: the drivers of the engines, from what an engine prints to a report.
pub mod Lines
pub mod Hits
pub mod Command
pub mod Valid
pub mod Accounts
pub mod Maldet
pub mod Tables
pub mod Pmf
pub mod Amwscan
mod Samples
mod Tests
mod RunTests

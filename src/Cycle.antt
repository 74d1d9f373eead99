-- ===== src/Cycle.antt =====
-- internal/cycle: what a cycle does with the reports of its engines and with its verdicts.
pub mod Merge
pub mod MergeLaws
pub mod Act
pub mod Touches
pub mod Gather
pub mod Found
pub mod Engines
pub mod Roll
pub mod Run
pub mod Promises
mod Tests
mod RunTests

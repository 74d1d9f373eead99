-- ===== src/Sched.antt =====
-- internal/sched: cron expressions and the daemon's full scan.
pub mod Cron
pub mod Values
pub mod Daemon
mod Tests

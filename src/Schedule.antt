-- ===== src/Schedule.antt =====
-- internal/schedule: cron expressions, the minute worker and the runner.
pub mod Cron
pub mod Rows
pub mod Worker
pub mod Runs
pub mod Runner

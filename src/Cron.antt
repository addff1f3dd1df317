-- ===== src/Cron.antt =====
-- pkg/cron/service.go: the scheduler of reminders and recurring agent turns.
pub mod Types
pub mod Jobs
pub mod Schedule
pub mod Service
pub mod Execution
pub mod Claim
pub mod Ids
pub mod Steps
pub mod Outcome
pub mod Planned
pub mod Missed

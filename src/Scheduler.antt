-- ===== src/Scheduler.antt =====
-- apps/api/src/scheduler: schedules of pipelines, the search for those that are due, and the poller.
pub mod Validation
pub mod Schedule
pub mod Due
pub mod Poller
pub mod Settings

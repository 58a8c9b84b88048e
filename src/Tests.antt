-- ===== src/Tests.antt =====
-- Concrete data, and the theorems at work on it.
mod Data
mod Mappings
mod Runs
mod Requests
mod Schedules
mod Webhooks
mod Scheduler
mod Sessions
mod Retries
mod Pipelines
mod Listings
mod Platform

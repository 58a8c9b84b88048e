-- ===== src/Webhooks.antt =====
-- apps/api/src/webhooks/webhooks.service.ts: events that arrive by HTTP, their processing by the
-- pipelines of their connector, at once or by a worker, and the access to them.
pub mod Request
pub mod Tables
pub mod Process
pub mod Handlers
pub mod Listing
pub mod Worker

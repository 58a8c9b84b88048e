-- ===== src/SyncRuns.antt =====
-- apps/api/src/sync-runs/sync-runs.service.ts: runs of pipelines over batches of records.
pub mod Cursor
pub mod Tables
pub mod Records
pub mod Execute
pub mod Listing
pub mod Worker

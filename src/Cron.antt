-- ===== src/Cron.antt =====
-- apps/api/src/scheduler/cron-utils.ts: cron expressions of five fields and the search for the next
-- minute that one of them names. What a function throws is the text of its error.
pub mod Parse
pub mod Next

-- ===== src/Lib.antt =====
-- SyncBridge Platform: connectors bring records in, a pipeline has a mapping, a run over a batch of
-- records transforms each of them by the mapping and stores the results, and in incremental mode a
-- cursor remembers how far the runs have come. Runs are started by callers, by webhook events and by
-- a schedule, and are executed at once or queued for a worker.
--
-- Base: shared names, lists, options, results and texts. Js: JSON values, the values that reading a
--   property gives, and the JavaScript runtime as a parameter (`Js`): floating-point numbers,
--   dates, `String`, changes of case.
-- Paths: apps/api/src/transformations/path-utils.ts. Objects are lists of fields in order of
--   creation; what `setByPath` does in place is a function to the new object.
-- Transformations: apps/api/src/transformations/transformation-errors.ts and
--   apps/api/src/transformations/transformation-engine.service.ts. Mapping is `compileMapping`
--   and `validateMapping`, Record is `transformRecordWithCompiledMapping` with `coerceValue`.
--   `ok` and `err` stand for returning and throwing. Computed values are a parameter, numbered by
--   the calls.
-- Database: the tables of apps/api/prisma/schema.prisma, with lookup and update as in the
--   in-memory client apps/api/test/in-memory-prisma.ts. Effects: handlers that pass the tables on
--   and may throw; what is written before a throw stays written. The clock, generated ids and
--   failures of the queue are parameters (`Env`), numbered by the times of asking, and so are the
--   failures of the insertion of a synced record (`create_synced_record`) and, in
--   `processRunRecords`, of an audit entry (`log_or_throw`). Any other call of the database client
--   fails only where it finds no row, and elsewhere `AuditService.log` (`log`) is taken to succeed.
--   Effects.Frame: what handlers keep of the tables, and sequences of calls (`Steps`).
-- SyncRuns: apps/api/src/sync-runs/sync-runs.service.ts. Cursor is the cursor of incremental
--   mode; Tables the calls of the database client; Records is `processRunRecords`; Execute is the
--   creation of runs, `queueSyncRun`, `executeSyncRunNow`, `findById` and `hasActiveRun`, with
--   `getById` and `findOne` of apps/api/src/pipelines/pipelines.service.ts and `enqueueJob` of
--   apps/api/src/jobs/jobs.service.ts; Worker is `processQueuedSyncRun`; Listing is
--   `listByPipeline` and `listAll`, on the pages of the module Listing.
-- Webhooks: apps/api/src/webhooks/webhooks.service.ts. Request reads keys, headers and sizes;
--   Tables the calls of the database client; Process is `processWebhookEventNow`, with the rows of
--   runs it leaves in Process.Trail and Process.Each; Handlers is
--   `receiveEvent`, `retryEvent`, `processEvent` and `getEventJob`; Listing is `listEvents` and
--   `getEventById`; Worker is `processQueuedWebhookEvent`.
-- Scheduler: apps/api/src/scheduler/scheduler.service.ts. Schedule changes and triggers a schedule,
--   Due is a round over the pipelines that are due, Poller the cycle with its lock, Settings what
--   the constructor reads and the answers that only read.
-- Cron: apps/api/src/scheduler/cron-utils.ts. Parse is `parseCronExpression`, Next is
--   `computeNextRunAt`; dates, time zones and `Number(text)` are parameters.
-- Auth: apps/api/src/auth/auth.service.ts and apps/api/src/users/users.service.ts. Tokens issues,
--   matches and revokes refresh tokens; Session is `register`, `login`, `me`, `refresh` and
--   `logout`. Hashing and signing are parameters (`Crypto`).
-- Connectors: apps/api/src/connectors/connectors.service.ts, and in Policy
--   apps/api/src/connectors/connector-config.policy.ts.
-- Pipelines: apps/api/src/pipelines/pipelines.service.ts: creation, changes and the preview.
-- Dashboard: apps/api/src/dashboard/dashboard.service.ts.
-- Jobs: apps/api/src/jobs/job-status.service.ts; Queue has the settings of
--   apps/api/src/jobs/jobs.service.ts and the processors of apps/api/src/workers; Retries is the
--   tries at one message, a step relation that lets other handlers run in between.
-- Config: apps/api/src/config/env.validation.ts; what `Number` and `new URL` make of texts is a
--   parameter (`Parsers`).
-- Logging: `sanitizeObject` of apps/api/src/common/logging/structured-logger.service.ts.
-- Http: the filter of exceptions, the guard on roles and the id of a request, all of
--   apps/api/src/common (the framework's message for an exception's response is a parameter), and `ready` of apps/api/src/health/health.service.ts.
-- RateLimit: apps/api/src/common/middleware/rate-limit.middleware.ts.
-- Web: apps/web/lib/auth.ts; Client is `requestApi`, `register`, `login`, `me` and `logout` of
--   apps/web/lib/api.ts, Endpoints its other methods, Exchange what a call sends and is answered. What `fetch` gives is a parameter, a server
--   with a state of its own; in Renewal it is the API's `refresh` over the tables.
-- Tests: a small runtime, concrete tables, and the theorems at work on them.
--
-- Records uses Transformations and Cursor; Execute and the two Workers use Records; Webhooks and
-- Scheduler start runs through Execute; Pipelines uses the connectors and the mappings, Dashboard
-- is compared with the lists of the other services, and Jobs.Queue and Scheduler.Settings read what
-- Config has checked. All handlers act on the same tables. A handler runs to its end before another
-- one starts: interleavings of the steps of several handlers are not modelled. Loops over lists
-- need no fuel. The loop of `addRange` has a turn for each number up to its end and steps of one at
-- least; the search for the next minute has the 60 * 24 * 366 turns of the source. A natural number
-- stands for a count or for milliseconds; the counts are those of lists in memory, far below 2^53.
--
-- Not modelled: failures of the database other than those named under Effects, metadata of audit logs and jobs, columns of related rows in answers, the timer of
-- the scheduler, the queue library apart from the rule by which it tries again, writing log entries,
-- the controllers with the validation of their DTOs, the seed and the pages of apps/web: glue,
-- declarations and I/O around what is modelled.
pub mod Base
pub mod Js
pub mod Paths
pub mod Transformations
pub mod Database
pub mod Effects
pub mod SyncRuns
pub mod Http
pub mod Web
pub mod Webhooks
pub mod Scheduler
pub mod Auth
pub mod Connectors
pub mod Listing
pub mod Logging
pub mod Config
pub mod Jobs
pub mod Dashboard
pub mod Pipelines
pub mod RateLimit
pub mod Cron
mod Tests

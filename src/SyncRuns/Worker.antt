-- ===== src/SyncRuns/Worker.antt =====
-- apps/api/src/sync-runs/sync-runs.service.ts: `processQueuedSyncRun`, the run of a queued job by the
-- worker. The job is one attempt; how often the queue tries again is not modelled.
pub mod Rows
pub mod Laws
use sync_bridge_platform.Base.{ℕ, ◌-◌, String, Option, none, some, List, ok, err}
use sync_bridge_platform.Js.{Js}
use sync_bridge_platform.Database.{
  running, failed, processing, completed, SyncPipeline, SyncRun, BackgroundJob,
  ExecuteSyncRunJobPayload, World,
}
use sync_bridge_platform.Effects.{
  Error, not_found, Env, M, pure, throw, or_throw, gets, draw, log, try_catch,
  sanitize_error_message, ◌>>=◌, ◌>>◌,
}
use sync_bridge_platform.SyncRuns.Tables.{
  Actor, actor_id, find_pipeline, find_run, find_job, update_run, update_pipeline, update_job,
}
use sync_bridge_platform.SyncRuns.Records.{RunProcessingSummary, process_run_records}
use sync_bridge_platform.SyncRuns.Execute.{get_by_id, finished_run, final_action}

abbrev pub processing_job : ℕ → ℕ → BackgroundJob → BackgroundJob
processing_job started_at attempts j = record j {
  status = processing;
  started_at = some started_at;
  attempts = attempts;
}

abbrev pub running_run : ℕ → SyncRun → SyncRun
running_run started_at r = record r { status = running; started_at = some started_at }

-- The clock does not run backwards, so that the difference is the one of the integers.
abbrev pub completed_job : ℕ → ℕ → ℕ → BackgroundJob → BackgroundJob
completed_job started_at finished_at attempts j = record j {
  status = completed;
  finished_at = some finished_at;
  duration_ms = some (finished_at - started_at);
  attempts = attempts;
  last_error = none;
}

abbrev pub failed_run : ℕ → String → SyncRun → SyncRun
failed_run finished_at message r = record r {
  status = failed;
  error_message = some message;
  finished_at = some finished_at;
}

abbrev pub failed_job : ℕ → ℕ → ℕ → String → BackgroundJob → BackgroundJob
failed_job started_at finished_at attempts message j = record j {
  status = failed;
  attempts = attempts;
  last_error = some message;
  finished_at = some finished_at;
  duration_ms = some (finished_at - started_at);
}

module _ (js : Js) (env : Env) (payload : ExecuteSyncRunJobPayload js.Num) (attempts : ℕ) where
  abbrev actor : Option Actor
  actor = some (record { sub = payload.requested_by_user_id; role = payload.requested_by_role })

  -- Behind the records, in the `try` block.
  unfoldable pub complete :
      String → String → String → ℕ → RunProcessingSummary js.Num → M js.Num (Unit {0})
  complete job_id run_id pipeline_id started_at summary = do
    finished_at ← draw env.clock
    r ← update_run run_id (finished_run summary finished_at)
    p ← update_pipeline pipeline_id (λ p. record p { last_run_at = some finished_at })
    j ← update_job job_id (completed_job started_at finished_at attempts)
    log "background_job_completed" "background_job" job_id (actor_id actor)
    log (final_action summary.records_failed) "sync_run" run_id (actor_id actor)

  -- The `catch` block.
  unfoldable pub fail : String → String → String → ℕ → Error → M js.Num (Unit {0})
  fail job_id run_id pipeline_id started_at error = do
    finished_at ← draw env.clock
    let message = sanitize_error_message "Background sync run failed" error
    r ← update_run run_id (failed_run finished_at message)
    p ← update_pipeline pipeline_id (λ p. record p { last_run_at = some finished_at })
    j ← update_job job_id (failed_job started_at finished_at attempts message)
    log "background_job_failed" "background_job" job_id (actor_id actor)
    log "sync_run_failed" "sync_run" run_id (actor_id actor)
    throw error

  unfoldable pub process_queued_sync_run : M js.Num (Unit {0})
  process_queued_sync_run = do
    found_job ← gets (λ w. find_job payload.background_job_id w.background_jobs)
    job ← or_throw found_job (not_found "Background job not found")
    found_run ← gets (λ w. find_run payload.sync_run_id w.sync_runs)
    run ← or_throw found_run (not_found "Sync run not found")
    pipeline ← get_by_id payload.pipeline_id
    started_at ← draw env.clock
    j ← update_job job.id (processing_job started_at attempts)
    r ← update_run run.id (running_run started_at)
    log "background_job_started" "background_job" job.id (actor_id actor)
    log "sync_run_started" "sync_run" run.id (actor_id actor)
    try_catch
        (process_run_records js env run.id pipeline actor payload.mock_records payload.ignore_cursor
          >>= complete job.id run.id pipeline.id started_at)
        pure (fail job.id run.id pipeline.id started_at)

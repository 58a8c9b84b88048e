-- ===== src/SyncRuns/Execute.antt =====
-- apps/api/src/sync-runs/sync-runs.service.ts: how a run is created, queued or executed at once, with
-- the access checks of apps/api/src/pipelines/pipelines.service.ts and the enqueueing of
-- apps/api/src/jobs/jobs.service.ts. The answers to the client are left out.
pub mod Laws
pub mod Active
use sync_bridge_platform.Base.{
  ℕ, suc, String, Bool, true, false, not, ◌&&◌, ◌||◌, Option, none, some, List, [], ◌∷◌, ◌++◌, ◌==◌,
  ok, err, any, ltb, if◌then◌else◌,
}
use sync_bridge_platform.Js.{Js}
use sync_bridge_platform.Database.{
  user, operator, admin, queued, running, success, failed, cancelled, manual, scheduled, sync_run,
  SyncPipeline, SyncRun, SyncRunStatus, SyncRunTriggerType, BackgroundJob, MockRecord, UserRole,
  ExecuteSyncRunJobPayload, World,
}
use sync_bridge_platform.Effects.{
  Error, not_found, forbidden, plain, Env, M, pure, throw, throw_if, or_throw, gets, draw, log,
  ◌>>=◌, ◌>>◌,
}
use sync_bridge_platform.SyncRuns.Tables.{
  Actor, actor_id, find_pipeline, find_run, update_run, update_pipeline, create_run, create_job,
}
use sync_bridge_platform.SyncRuns.Records.{RunProcessingSummary, process_run_records}

unfoldable pub is_privileged : UserRole → Bool
is_privileged user = false
is_privileged operator = true
is_privileged admin = true

pub record CreateRunOptions (N : Type 0) : Type 0 where
  pub mock_records : List (MockRecord N)
  pub ignore_cursor : Bool
  pub trigger_type : SyncRunTriggerType
  pub actor : Option Actor

abbrev pub sub_or : String → Option Actor → String
sub_or fallback none = fallback
sub_or fallback (some a) = a.sub

abbrev pub role_or : UserRole → Option Actor → UserRole
role_or fallback none = fallback
role_or fallback (some a) = a.role

unfoldable pub is_active : SyncRunStatus → Bool
is_active queued = true
is_active running = true
is_active success = false
is_active failed = false
is_active cancelled = false

-- `summary.recordsFailed > 0 ? FAILED : SUCCESS`
unfoldable pub final_status : ℕ → SyncRunStatus
final_status records_failed = if ltb 0 records_failed then failed else success

abbrev pub final_message : ℕ → Option String
final_message records_failed =
    if ltb 0 records_failed then some "One or more records failed during processing." else none

abbrev pub final_action : ℕ → String
final_action records_failed =
    if ltb 0 records_failed then "sync_run_failed" else "sync_run_completed"

abbrev queued_job : String → String → BackgroundJob
queued_job sync_run_id id = record {
  id = id;
  type = sync_run;
  status = queued;
  entity_type = "sync_run";
  entity_id = sync_run_id;
  attempts = 0;
  last_error = none;
  started_at = none;
  finished_at = none;
  duration_ms = none;
}

module _ {N : Type 0} where
  -- `PipelinesService.getById`
  unfoldable pub get_by_id : String → M N (SyncPipeline N)
  get_by_id id w = or_throw (find_pipeline id w.pipelines) (not_found "Pipeline not found") w

  -- `PipelinesService.findOne`
  unfoldable pub find_one : String → Actor → M N (SyncPipeline N)
  find_one id caller = do
    p ← get_by_id id
    throw_if (not (is_privileged caller.role) && not (p.owner_id == caller.sub))
        (forbidden "You do not have access to this pipeline")
    pure p

  -- `SyncRunsService.findById`. The foreign key of the table provides the pipeline of a run.
  unfoldable pub find_by_id : String → Actor → M N SyncRun
  find_by_id id caller = do
    found ← gets (λ w. find_run id w.sync_runs)
    run ← or_throw found (not_found "Sync run not found")
    related ← gets (λ w. find_pipeline run.pipeline_id w.pipelines)
    p ← or_throw related (plain "Inconsistent query result")
    throw_if (not (is_privileged caller.role) && not (p.owner_id == caller.sub))
        (forbidden "You do not have access to this sync run")
    pure run

  unfoldable pub has_active_run : String → World N → Bool
  has_active_run pipeline_id w =
      any (λ r. r.pipeline_id == pipeline_id && is_active r.status) w.sync_runs

  -- `JobsService.enqueueJob`; a queue that was not made is left out with a warning.
  unfoldable pub enqueue_job : Env → (World N → World N) → M N (Unit {0})
  enqueue_job env add w =
      if not env.is_async_mode
      then (err (plain "Queue mode is sync. Async enqueue is not enabled."), w)
      else if not env.has_queue
      then (ok tt, w)
      else elim (env.add_error w.ticks) [
        | some message ↦ (err (plain message), record w { ticks = suc w.ticks })
        | none ↦ (ok tt, add (record w { ticks = suc w.ticks }))
      ]

  unfoldable pub enqueue_execute_sync_run_job : Env → ExecuteSyncRunJobPayload N → M N (Unit {0})
  unfolding enqueue_job
  enqueue_execute_sync_run_job env payload =
      enqueue_job env (λ w. record w { queue = w.queue ++ payload ∷ [] })

  abbrev pub queued_run : String → CreateRunOptions N → String → SyncRun
  queued_run pipeline_id options id = record {
    id = id;
    pipeline_id = pipeline_id;
    status = queued;
    trigger_type = options.trigger_type;
    records_received = 0;
    records_processed = 0;
    records_failed = 0;
    error_message = none;
    started_at = none;
    finished_at = none;
  }

  abbrev payload_of : String → CreateRunOptions N → String → String → ExecuteSyncRunJobPayload N
  payload_of pipeline_id options sync_run_id job_id = record {
    background_job_id = job_id;
    sync_run_id = sync_run_id;
    pipeline_id = pipeline_id;
    requested_by_user_id = sub_or "system" options.actor;
    requested_by_role = role_or operator options.actor;
    mock_records = options.mock_records;
    ignore_cursor = options.ignore_cursor;
    trigger_type = options.trigger_type;
  }

  unfoldable pub queue_sync_run : Env → SyncPipeline N → CreateRunOptions N → M N SyncRun
  queue_sync_run env pipeline options = do
    run ← create_run env (queued_run pipeline.id options)
    job ← create_job env (queued_job run.id)
    enqueue_execute_sync_run_job env (payload_of pipeline.id options run.id job.id)
    log "sync_run_queued" "sync_run" run.id (actor_id options.actor)
    log "background_job_queued" "background_job" job.id (actor_id options.actor)
    pure run

  abbrev pub initial_run : String → CreateRunOptions N → ℕ → String → SyncRun
  initial_run pipeline_id options started_at id = record {
    id = id;
    pipeline_id = pipeline_id;
    status = running;
    trigger_type = options.trigger_type;
    records_received = 0;
    records_processed = 0;
    records_failed = 0;
    error_message = none;
    started_at = some started_at;
    finished_at = none;
  }

  -- The fields of a run that went through.
  abbrev pub finished_run : RunProcessingSummary N → ℕ → SyncRun → SyncRun
  finished_run summary finished_at r = record r {
    status = final_status summary.records_failed;
    records_received = summary.records_received;
    records_processed = summary.records_processed;
    records_failed = summary.records_failed;
    error_message = final_message summary.records_failed;
    finished_at = some finished_at;
  }

module _ (js : Js) (env : Env) where
  -- `executeSyncRunNow`, which has no `catch`: what a run throws goes to the caller as it is.
  unfoldable pub execute_sync_run_now :
      SyncPipeline js.Num → CreateRunOptions js.Num → M js.Num SyncRun
  execute_sync_run_now pipeline options = do
    started_at ← draw env.clock
    run ← create_run env (initial_run pipeline.id options started_at)
    log "sync_run_started" "sync_run" run.id (actor_id options.actor)
    summary ←
        process_run_records js env run.id pipeline options.actor options.mock_records
          options.ignore_cursor
    finished_at ← draw env.clock
    completed ← update_run run.id (finished_run summary finished_at)
    updated ← update_pipeline pipeline.id (λ p. record p { last_run_at = some finished_at })
    log (final_action summary.records_failed) "sync_run" completed.id (actor_id options.actor)
    log "sync_run_created" "sync_run" completed.id (actor_id options.actor)
    pure completed

  unfoldable pub create_run_from_pipeline :
      SyncPipeline js.Num → CreateRunOptions js.Num → M js.Num SyncRun
  create_run_from_pipeline pipeline options =
      if env.is_async_mode
      then queue_sync_run env pipeline options
      else execute_sync_run_now pipeline options

  -- `createForPipeline`; the DTO's `mockRecords`, `sampleRecords` and `ignoreCursor` come resolved.
  unfoldable pub create_for_pipeline :
      String → List (MockRecord js.Num) → Bool → Actor → M js.Num SyncRun
  create_for_pipeline pipeline_id mock_records ignore_cursor caller = do
    pipeline ← find_one pipeline_id caller
    log "manual_sync_triggered" "pipeline" pipeline.id (some caller.sub)
    create_run_from_pipeline pipeline (record {
      mock_records = mock_records;
      ignore_cursor = ignore_cursor;
      trigger_type = manual;
      actor = some caller;
    })

  unfoldable pub create_scheduled_for_pipeline :
      String → List (MockRecord js.Num) → Bool → Option Actor → M js.Num SyncRun
  create_scheduled_for_pipeline pipeline_id mock_records ignore_cursor actor = do
    pipeline ← get_by_id pipeline_id
    create_run_from_pipeline pipeline (record {
      mock_records = mock_records;
      ignore_cursor = ignore_cursor;
      trigger_type = scheduled;
      actor = actor;
    })

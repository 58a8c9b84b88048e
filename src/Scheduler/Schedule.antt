-- ===== src/Scheduler/Schedule.antt =====
-- apps/api/src/scheduler/scheduler.service.ts: reading, changing and triggering the schedule of a pipeline.
pub mod Laws
pub mod Trigger
use sync_bridge_platform.Base.{
  or_else, ℕ, String, Bool, true, false, not, ◌&&◌, Option, none, some, List, [], ◌∷◌, ok, err,
  trim, is_empty, if◌then◌else◌,
}
use sync_bridge_platform.Js.{Js, Json, Fields, Unknown, given, num, str, obj, read}
use sync_bridge_platform.Database.{active, paused, archived, SyncPipeline, PipelineStatus, SyncRun}
use sync_bridge_platform.Effects.{
  bad_request, Env, M, pure, throw, throw_if, gets, draw, log, ◌>>=◌, ◌>>◌,
}
use sync_bridge_platform.SyncRuns.Tables.{Actor, update_pipeline}
use sync_bridge_platform.SyncRuns.Execute.{find_one, has_active_run, create_scheduled_for_pipeline}
use sync_bridge_platform.Webhooks.Tables.{is_active_status}
use sync_bridge_platform.Scheduler.Validation.{Calendar, validate_cron_expression, next_run_at}

pub record UpdatePipelineScheduleDto : Type 0 where
  pub schedule_enabled : Option Bool
  pub schedule_cron : Option String
  pub schedule_timezone : Option String
  pub incremental_mode : Option Bool

abbrev pub is_archived : PipelineStatus → Bool
is_archived archived = true
is_archived _ = false

abbrev pub is_paused : PipelineStatus → Bool
is_paused paused = true
is_paused _ = false

-- What a schedule comes to when the request's fields stand over those of the pipeline.
pub record EffectiveSchedule : Type 0 where
  pub enabled : Bool
  pub cron : String
  pub timezone : String
  pub incremental_mode : Bool

module _ {N : Type 0} where
  unfoldable pub effective_schedule : UpdatePipelineScheduleDto → SyncPipeline N → EffectiveSchedule
  effective_schedule dto p = record {
    enabled = or_else dto.schedule_enabled p.schedule_enabled;
    cron = trim (or_else dto.schedule_cron (or_else p.schedule_cron ""));
    timezone = trim (or_else dto.schedule_timezone (or_else p.schedule_timezone "UTC"));
    incremental_mode = or_else dto.incremental_mode p.incremental_mode;
  }

  -- The fields that `updatePipelineSchedule` writes.
  abbrev pub scheduled_pipeline : EffectiveSchedule → Option ℕ → SyncPipeline N → SyncPipeline N
  scheduled_pipeline e next p = record p {
    schedule_enabled = e.enabled;
    schedule_cron = if e.enabled then some e.cron else p.schedule_cron;
    schedule_timezone =
        if e.enabled then some e.timezone else some (or_else p.schedule_timezone "UTC");
    next_run_at = next;
    incremental_mode = e.incremental_mode;
  }

  abbrev log_change : Bool → Bool → String → String → M N (Unit {0})
  log_change before true id sub =
      if before then pure tt else log "pipeline_schedule_enabled" "pipeline" id (some sub)
  log_change before false id sub =
      if before then log "pipeline_schedule_disabled" "pipeline" id (some sub) else pure tt

module _ (calendar : Calendar) {N : Type 0} where
  -- The checks that precede the update.
  unfoldable pub check_schedule : PipelineStatus → EffectiveSchedule → M N (Unit {0})
  check_schedule status e = do
    throw_if (is_archived status && e.enabled)
        (bad_request ("Archived pipelines cannot be scheduled" ∷ []))
    throw_if (e.enabled && is_empty e.cron)
        (bad_request ("scheduleCron is required when scheduleEnabled is true" ∷ []))
    let validated = validate_cron_expression calendar e.cron
    throw_if (e.enabled && not validated.valid) (bad_request validated.errors)
    throw_if (e.enabled && not (calendar.validate_timezone e.timezone))
        (bad_request ("Invalid schedule timezone" ∷ []))

  unfoldable pub next_or_none : Bool → EffectiveSchedule → ℕ → M N (Option ℕ)
  next_or_none true e base_time = next_run_at calendar e.cron e.timezone base_time
  next_or_none false e base_time = pure none

  unfoldable pub update_pipeline_schedule :
      Env → String → UpdatePipelineScheduleDto → Actor → M N (SyncPipeline N)
  update_pipeline_schedule env pipeline_id dto caller = do
    p ← find_one pipeline_id caller
    let e = effective_schedule dto p
    check_schedule p.status e
    base_time ← draw env.clock
    next ← next_or_none (e.enabled && is_active_status p.status) e base_time
    updated ← update_pipeline p.id (scheduled_pipeline e next)
    log "pipeline_schedule_updated" "pipeline" p.id (some caller.sub)
    log_change p.schedule_enabled updated.schedule_enabled p.id caller.sub
    pure updated

module _ (js : Js) (env : Env) where
  unfoldable pub refuse_active : String → String → Bool → M js.Num (Unit {0})
  refuse_active pipeline_id sub true = do
    log "scheduled_pipeline_skipped" "pipeline" pipeline_id (some sub)
    throw (bad_request ("A queued or running sync already exists for this pipeline" ∷ []))
  refuse_active pipeline_id sub false = pure tt

  unfoldable pub trigger_pipeline_schedule : String → Actor → M js.Num SyncRun
  trigger_pipeline_schedule pipeline_id caller = do
    p ← find_one pipeline_id caller
    throw_if (is_archived p.status) (bad_request ("Archived pipelines cannot be triggered" ∷ []))
    throw_if (is_paused p.status) (bad_request ("Paused pipelines cannot be triggered" ∷ []))
    active_run ← gets (has_active_run p.id)
    refuse_active p.id caller.sub active_run
    run ← create_scheduled_for_pipeline js env p.id [] false (some caller)
    log "scheduled_sync_enqueued" "pipeline" p.id (some caller.sub)
    pure run

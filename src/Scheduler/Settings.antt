-- ===== src/Scheduler/Settings.antt =====
-- apps/api/src/scheduler/scheduler.service.ts: the settings that the constructor reads, and what
-- `getSchedulerStatus` and `getPipelineSchedule` answer.
use sync_bridge_platform.Base.{
  ℕ, String, Bool, Option, none, some, ◌==◌, ltb, or_else, if◌then◌else◌,
}
use sync_bridge_platform.Js.{Js, Json, Fields, Unknown, end, field, num, str, obj, given, read}
use sync_bridge_platform.Database.{PipelineStatus, SyncPipeline}
use sync_bridge_platform.Effects.{M, pure, ◌>>=◌}
use sync_bridge_platform.SyncRuns.Tables.{Actor}
use sync_bridge_platform.SyncRuns.Execute.{find_one}
use sync_bridge_platform.Config.{Parsers, NormalizedConfig}
use sync_bridge_platform.Scheduler.Poller.{SchedulerConfig, Poller}

abbrev int_from : ℕ → Option ℕ → ℕ → ℕ
int_from min_value none fallback = fallback
int_from min_value (some n) fallback = if ltb n min_value then fallback else n

-- `getIntConfig`: the fallback where the text is no integer or one below `minValue`.
unfoldable pub get_int_config : Parsers → String → ℕ → ℕ → ℕ
get_int_config parsers raw fallback min_value = int_from min_value (parsers.integer_of raw) fallback

-- The constructor, on a checked environment, which leaves SYNCBRIDGE_PROCESS_ROLE as it is.
unfoldable pub scheduler_config : Parsers → NormalizedConfig → Option String → SchedulerConfig
unfolding get_int_config
scheduler_config parsers c process_role = record {
  scheduler_enabled = c.scheduler_enabled == "true";
  lock_ttl_seconds = get_int_config parsers c.scheduler_lock_ttl_seconds 60 1;
  process_role = or_else process_role "api";
  is_test_env = c.node_env == "test";
}

unfoldable pub poll_interval_seconds : Parsers → NormalizedConfig → ℕ
unfolding get_int_config
poll_interval_seconds parsers c = get_int_config parsers c.scheduler_poll_interval_seconds 30 1

pub record SchedulerStatus : Type 0 where
  pub scheduler_enabled : Bool
  pub process_role : String
  pub poll_interval_seconds : ℕ
  pub lock_ttl_seconds : ℕ
  pub last_poll_at : Option ℕ
  pub last_poll_duration_ms : Option ℕ
  pub last_due_pipelines : ℕ
  pub last_enqueued : ℕ
  pub last_skipped : ℕ
  pub last_error : Option String

-- `getSchedulerStatus`
unfoldable pub get_scheduler_status : SchedulerConfig → ℕ → Poller → SchedulerStatus
get_scheduler_status config interval s = record {
  scheduler_enabled = config.scheduler_enabled;
  process_role = config.process_role;
  poll_interval_seconds = interval;
  lock_ttl_seconds = config.lock_ttl_seconds;
  last_poll_at = s.last_poll_at;
  last_poll_duration_ms = s.last_poll_duration_ms;
  last_due_pipelines = s.last_due_pipelines;
  last_enqueued = s.last_enqueued;
  last_skipped = s.last_skipped;
  last_error = s.last_error;
}

pub record ScheduleResponse (N : Type 0) : Type 0 where
  pub pipeline_id : String
  pub pipeline_status : PipelineStatus
  pub schedule_enabled : Bool
  pub schedule_cron : Option String
  pub schedule_timezone : Option String
  pub next_run_at : Option ℕ
  pub last_run_at : Option ℕ
  pub incremental_mode : Bool
  pub cursor_summary : Option (Fields N)

module _ (js : Js) where
  abbrev sequence_in : Unknown js.Num → Fields js.Num → Fields js.Num
  sequence_in (given (num n)) rest = if js.is_finite n then field "sequence" (num n) rest else rest
  sequence_in _ rest = rest

  abbrev updated_at_in : Unknown js.Num → Fields js.Num
  updated_at_in (given (str text)) = field "updatedAt" (str text) end
  updated_at_in _ = end

  abbrev unless_empty : Fields js.Num → Option (Fields js.Num)
  unless_empty end = none
  unless_empty (field key value fs) = some (field key value fs)

  -- `toCursorSummary`
  unfoldable pub to_cursor_summary : Json js.Num → Option (Fields js.Num)
  to_cursor_summary (obj raw) =
      unless_empty (sequence_in (read raw "sequence") (updated_at_in (read raw "updatedAt")))
  to_cursor_summary _ = none

  abbrev pub to_schedule_response : SyncPipeline js.Num → ScheduleResponse js.Num
  to_schedule_response p = record {
    pipeline_id = p.id;
    pipeline_status = p.status;
    schedule_enabled = p.schedule_enabled;
    schedule_cron = p.schedule_cron;
    schedule_timezone = p.schedule_timezone;
    next_run_at = p.next_run_at;
    last_run_at = p.last_run_at;
    incremental_mode = p.incremental_mode;
    cursor_summary = to_cursor_summary p.cursor_json;
  }

  unfoldable pub get_pipeline_schedule : String → Actor → M js.Num (ScheduleResponse js.Num)
  get_pipeline_schedule pipeline_id caller = do
    p ← find_one pipeline_id caller
    pure (to_schedule_response p)

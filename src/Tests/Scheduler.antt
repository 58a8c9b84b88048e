-- ===== src/Tests/Scheduler.antt =====
-- Schedules, a round and a cycle of the poller on concrete tables.
use sync_bridge_platform.Base.{
  ℕ, suc, ◌+◌, String, true, false, ◌==◌, none, some, [], ◌∷◌, ◌≡◌, refl, ok, arith, keep, length,
  trim, split, if◌then◌else◌,
}
use sync_bridge_platform.Database.{operator, SyncPipeline, World, find, update}
use sync_bridge_platform.Effects.{Env, Error}
use sync_bridge_platform.Cron.Parse.{
  parse_cron_expression, fields_of, parse_field, add_segments, add_segment, step_match,
  parse_field_value,
}
use sync_bridge_platform.Cron.Next.{compute_next_run_at, search, matches_cron}
use sync_bridge_platform.SyncRuns.Tables.{
  Actor, find_pipeline, update_pipeline, create_run, create_job,
}
use sync_bridge_platform.SyncRuns.Execute.{
  is_privileged, find_one, is_active, has_active_run, create_scheduled_for_pipeline, get_by_id,
  create_run_from_pipeline, queue_sync_run, enqueue_execute_sync_run_job,
}
use sync_bridge_platform.SyncRuns.Execute.Active.{IsSingle}
use sync_bridge_platform.Scheduler.Validation.{Calendar, validate_cron_expression, next_run_at}
use sync_bridge_platform.Scheduler.Schedule.{
  effective_schedule, check_schedule, next_or_none, UpdatePipelineScheduleDto,
  update_pipeline_schedule, trigger_pipeline_schedule,
}
use sync_bridge_platform.Scheduler.Schedule.Laws.{IsScheduled, update_pipeline_schedule-IsScheduled}
use sync_bridge_platform.Scheduler.Schedule.Trigger.{Triggered, trigger_pipeline_schedule-IsSingle}
use sync_bridge_platform.Scheduler.Due.{
  PollSummary, is_due, due_pipelines, enqueue_due_pipelines, enqueue_all, unless_misconfigured,
  unless_active, order_by_time, insert_by_time,
}
use sync_bridge_platform.Scheduler.Due.Laws.{
  enqueue_due_pipelines-Counts, enqueue_due_pipelines-IsSingle,
}
use sync_bridge_platform.Scheduler.Poller.{
  SchedulerConfig, Poller, should_run_polling, run_polling_cycle,
}
use sync_bridge_platform.Scheduler.Poller.Laws.{IsIdle, Ended, run_polling_cycle-Ended}
use sync_bridge_platform.Tests.Data.{runtime, nth_id, pipeline, world_of}

abbrev calendar : Calendar
calendar = record {
  integer_of = λ text.
      if text == "5"
      then some 5
      else if text == "0"
      then some 0
      else if text == "1"
      then some 1
      else none;
  shown = λ n. "?";
  start_of_minute = λ t. t;
  next_minute = λ t. suc t;
  validate_timezone = λ zone. true;
  zoned_date_parts = λ t zone.
      some (record { minute = t; hour = 0; day_of_month = 1; month = 1; day_of_week = 0 });
}

abbrev queueing : Env
queueing = record {
  uuid = nth_id;
  clock = λ n. n;
  computed = λ mode n. "computed";
  insert_fails = λ n. false;
  audit_error = λ n. none;
  is_async_mode = true;
  has_queue = true;
  add_error = λ n. none;
}

abbrev due : String → String → ℕ → SyncPipeline ℕ
due id cron time = record pipeline {
  id = id;
  schedule_enabled = true;
  schedule_cron = some cron;
  next_run_at = some time;
}

-- The run of the table belongs to another pipeline.
abbrev tables : World ℕ
tables = record (world_of pipeline) {
  pipelines = due "p2" "* *" 2 ∷ due "p3" "5 0 1 1 0" 0 ∷ pipeline ∷ [];
  ticks = 2;
}

abbrev caller : Actor
caller = record { sub = "owner"; role = operator }

-- The table has one run.
once : IsSingle tables
once = record { at_most_one = λ id. ground arith }

abbrev round : PollSummary
round = record { due_pipelines = 2; enqueued = 1; skipped = 1 }

round_done : (enqueue_due_pipelines calendar runtime queueing tables).0 ≡ ok round
unfolding enqueue_due_pipelines due_pipelines order_by_time insert_by_time enqueue_all
    unless_misconfigured unless_active validate_cron_expression has_active_run is_active
    create_scheduled_for_pipeline get_by_id create_run_from_pipeline queue_sync_run create_run
    create_job enqueue_execute_sync_run_job next_run_at compute_next_run_at search matches_cron
    parse_cron_expression fields_of parse_field add_segments add_segment step_match
    parse_field_value split trim find update update_pipeline
round_done = refl

enqueue_due_pipelines-Counts_example :
    (round.due_pipelines ≡ length (keep (is_due 2) tables.pipelines))
    × (round.enqueued + round.skipped ≡ round.due_pipelines)
enqueue_due_pipelines-Counts_example =
    enqueue_due_pipelines-Counts calendar runtime queueing tables round round_done

enqueue_due_pipelines-IsSingle_example :
    IsSingle (enqueue_due_pipelines calendar runtime queueing tables).1
enqueue_due_pipelines-IsSingle_example =
    enqueue_due_pipelines-IsSingle calendar runtime queueing tables once

abbrev config : SchedulerConfig
config = record {
  scheduler_enabled = true;
  lock_ttl_seconds = 60;
  process_role = "worker";
  is_test_env = false;
}

abbrev resting : Poller
resting = record {
  poll_in_progress = false;
  lock_until = 0;
  last_poll_at = none;
  last_poll_duration_ms = none;
  last_due_pipelines = 0;
  last_enqueued = 0;
  last_skipped = 0;
  last_error = none;
}

resting-IsIdle : IsIdle resting
resting-IsIdle = record { free = refl; unlocked = refl }

abbrev message_of : Error → String
message_of e = "message"

run_polling_cycle-Ended_example :
    IsIdle (run_polling_cycle message_of calendar runtime queueing config resting tables).0
    × Ended message_of calendar runtime queueing config resting tables
        (run_polling_cycle message_of calendar runtime queueing config resting tables).0
unfolding should_run_polling
run_polling_cycle-Ended_example =
    run_polling_cycle-Ended message_of calendar runtime queueing config resting tables refl
      resting-IsIdle

abbrev weekly : UpdatePipelineScheduleDto
weekly = record {
  schedule_enabled = some true;
  schedule_cron = some "5 0 1 1 0";
  schedule_timezone = none;
  incremental_mode = none;
}

abbrev changed : SyncPipeline ℕ
changed = record (due "p2" "5 0 1 1 0" 5) { schedule_timezone = some "UTC" }

was_changed : (update_pipeline_schedule calendar queueing "p2" weekly caller tables).0 ≡ ok changed
unfolding update_pipeline_schedule find_one get_by_id is_privileged effective_schedule
    check_schedule next_or_none validate_cron_expression next_run_at compute_next_run_at search
    matches_cron parse_cron_expression fields_of parse_field add_segments add_segment step_match
    parse_field_value split trim find update update_pipeline
was_changed = refl

update_pipeline_schedule-IsScheduled_example :
    IsScheduled calendar 2 changed
    × (find_pipeline changed.id
          (update_pipeline_schedule calendar queueing "p2" weekly caller tables).1.pipelines
        ≡ some changed)
update_pipeline_schedule-IsScheduled_example =
    update_pipeline_schedule-IsScheduled calendar queueing "p2" weekly caller tables changed
      was_changed

trigger_pipeline_schedule-IsSingle_example :
    Triggered runtime queueing "p2" caller tables
      (trigger_pipeline_schedule runtime queueing "p2" caller tables).1
    × IsSingle (trigger_pipeline_schedule runtime queueing "p2" caller tables).1
trigger_pipeline_schedule-IsSingle_example =
    trigger_pipeline_schedule-IsSingle runtime queueing "p2" caller tables once

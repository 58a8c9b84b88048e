-- ===== src/Scheduler/Poller.antt =====
-- apps/api/src/scheduler/scheduler.service.ts: `runPollingCycle`, with the state that the service keeps
-- between the cycles.
pub mod Laws
use Prim.Native.String
use sync_bridge_platform.Base.{
  ℕ, ◌+◌, ◌-◌, ◌*◌, String, Bool, true, false, not, ◌&&◌, ◌||◌, ◌==◌, Option, none, some, Result,
  ok, err, ltb, if◌then◌else◌,
}
use sync_bridge_platform.Js.{Js}
use sync_bridge_platform.Database.{World}
use sync_bridge_platform.Effects.{Error, Env, draw, log}
use sync_bridge_platform.Scheduler.Validation.{Calendar}
use sync_bridge_platform.Scheduler.Due.{PollSummary, enqueue_due_pipelines}

-- The settings of the service.
pub record SchedulerConfig : Type 0 where
  pub scheduler_enabled : Bool
  pub lock_ttl_seconds : ℕ
  pub process_role : String
  pub is_test_env : Bool

pub record Poller : Type 0 where
  pub poll_in_progress : Bool
  pub lock_until : ℕ
  pub last_poll_at : Option ℕ
  pub last_poll_duration_ms : Option ℕ
  pub last_due_pipelines : ℕ
  pub last_enqueued : ℕ
  pub last_skipped : ℕ
  pub last_error : Option String

unfoldable pub should_run_polling : SchedulerConfig → Bool
should_run_polling config =
    config.scheduler_enabled && config.process_role == "worker" && not config.is_test_env

-- `message_of` is the `message` of an exception, which the framework fills.
module _ (message_of : Error → String) (calendar : Calendar) (js : Js) (env : Env)
    (config : SchedulerConfig) where
  -- The fields that a cycle sets before it starts.
  abbrev pub taken : ℕ → ℕ → Poller → Poller
  taken now poll_at s = record s {
    poll_in_progress = true;
    lock_until = now + config.lock_ttl_seconds * 1000;
    last_poll_at = some poll_at;
  }

  -- The `finally` block.
  abbrev pub released : Poller → Poller
  released s = record s { poll_in_progress = false; lock_until = 0 }

  abbrev pub after_summary : PollSummary → ℕ → Poller → Poller
  after_summary summary duration_ms s = record s {
    last_due_pipelines = summary.due_pipelines;
    last_enqueued = summary.enqueued;
    last_skipped = summary.skipped;
    last_poll_duration_ms = some duration_ms;
    last_error = none;
  }

  abbrev pub after_error : Error → ℕ → Poller → Poller
  after_error e duration_ms s = record s {
    last_error = some (message_of e);
    last_poll_duration_ms = some duration_ms;
  }

  -- Behind `enqueueDuePipelines`, by what it returned or threw.
  unfoldable pub finish_cycle :
      ℕ → Poller → Result Error PollSummary → World js.Num → Poller × World js.Num
  finish_cycle tick_started_at s (ok summary) w =
      let ended_at = env.clock w.ticks in
      (
        released (after_summary summary (ended_at - tick_started_at) s),
        (log "scheduler_tick_completed" "scheduler" "default" none (draw env.clock w).1).1,
      )
  finish_cycle tick_started_at s (err e) w =
      let ended_at = env.clock w.ticks in
      (
        released (after_error e (ended_at - tick_started_at) s),
        (log "scheduler_tick_failed" "scheduler" "default" none (draw env.clock w).1).1,
      )

  -- The cycle behind its two guards.
  unfoldable pub run_cycle : ℕ → Poller → World js.Num → Poller × World js.Num
  unfolding finish_cycle
  run_cycle now s w =
      let poll_at = env.clock w.ticks in
      let v = (draw env.clock w).1 in
      let tick_started_at = env.clock v.ticks in
      let u = (log "scheduler_tick_started" "scheduler" "default" none (draw env.clock v).1).1 in
      let m = enqueue_due_pipelines calendar js env u in
      finish_cycle tick_started_at (taken now poll_at s) m.0 m.1

  unfoldable pub run_polling_cycle : Poller → World js.Num → Poller × World js.Num
  unfolding run_cycle
  run_polling_cycle s w =
      let now = env.clock w.ticks in
      let v = (draw env.clock w).1 in
      if not (should_run_polling config)
      then (s, w)
      else if s.poll_in_progress || ltb now s.lock_until
      then (s, v)
      else run_cycle now s v

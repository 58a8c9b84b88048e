-- ===== src/Scheduler/Poller/Laws.antt =====
-- apps/api/src/scheduler/scheduler.service.ts: a cycle of the poller from its lock to its release.
use sync_bridge_platform.Base.{
  ◌+◌, String, true, false, none, some, ◌≡◌, inl, inr, arith, ok, err, Result-cases,
}
use sync_bridge_platform.Js.{Js}
use sync_bridge_platform.Database.{World}
use sync_bridge_platform.Effects.{Error, Env, draw, log}
use sync_bridge_platform.Scheduler.Validation.{Calendar}
use sync_bridge_platform.Scheduler.Due.{PollSummary, enqueue_due_pipelines}
use sync_bridge_platform.Scheduler.Due.Laws.{enqueue_due_pipelines-Counts}
use sync_bridge_platform.Scheduler.Poller.{
  SchedulerConfig, Poller, should_run_polling, finish_cycle, run_cycle, run_polling_cycle,
}

-- No cycle is under way and the lock is free.
pub record IsIdle (s : Poller) : Type 0 where
  pub free : s.poll_in_progress ≡ false
  pub unlocked : s.lock_until ≡ 0

module _ (message_of : Error → String) (calendar : Calendar) (js : Js) (env : Env)
    (config : SchedulerConfig) where
  -- The tables when a cycle looks for the pipelines that are due.
  abbrev ticked : World js.Num → World js.Num
  ticked w =
      (log "scheduler_tick_started" "scheduler" "default" none
        (draw env.clock (draw env.clock (draw env.clock w).1).1).1).1

  -- How a cycle ends that started at `s` and `w`.
  pub data Ended (s : Poller) (w : World js.Num) (s' : Poller) : Type 0 where
    completed :
        (t : PollSummary)
        → (enqueue_due_pipelines calendar js env (ticked w)).0 ≡ ok t
        → s'.last_error ≡ none
        → s'.last_due_pipelines ≡ t.due_pipelines
        → s'.last_enqueued ≡ t.enqueued
        → s'.last_skipped ≡ t.skipped
        → s'.last_enqueued + s'.last_skipped ≡ s'.last_due_pipelines
        → Ended s w s'
    failed :
        (e : Error)
        → (enqueue_due_pipelines calendar js env (ticked w)).0 ≡ err e
        → s'.last_error ≡ some (message_of e)
        → s'.last_due_pipelines ≡ s.last_due_pipelines
        → s'.last_enqueued ≡ s.last_enqueued
        → s'.last_skipped ≡ s.last_skipped
        → Ended s w s'

  -- A cycle that starts on an idle poller, in a process that may poll, goes through the pipelines that are
  -- due and leaves the poller idle again, so that the next cycle finds it free. If the round throws, its
  -- error is caught and shown as the last error, and the three counts (due, enqueued, skipped) stay as
  -- they were. Otherwise each of the three is that of the round, those enqueued and skipped add up to
  -- those due, and the last error is cleared.
  pub run_polling_cycle-Ended :
      (s : Poller) (w : World js.Num)
      → should_run_polling config ≡ true
      → IsIdle s
      → let m = run_polling_cycle message_of calendar js env config s w in
        IsIdle m.0 × Ended s w m.0
  unfolding run_polling_cycle run_cycle finish_cycle
  run_polling_cycle-Ended s w may idle =
      elim (Result-cases (enqueue_due_pipelines calendar js env (ticked w)).0) [
        | inl (t, went) ↦
            let (number, sum) = enqueue_due_pipelines-Counts calendar js env (ticked w) t went in
            (
              record {
                free = (ground (arith, may, idle.free, idle.unlocked, went, sum));
                unlocked = (ground (arith, may, idle.free, idle.unlocked, went, sum));
              },
              completed t went (ground (arith, may, idle.free, idle.unlocked, went, sum))
                  (ground (arith, may, idle.free, idle.unlocked, went, sum))
                  (ground (arith, may, idle.free, idle.unlocked, went, sum))
                  (ground (arith, may, idle.free, idle.unlocked, went, sum))
                  (ground (arith, may, idle.free, idle.unlocked, went, sum)),
            )
        | inr (e, thrown) ↦ (
          record {
            free = (ground (arith, may, idle.free, idle.unlocked, thrown));
            unlocked = (ground (arith, may, idle.free, idle.unlocked, thrown));
          },
          failed e thrown (ground (arith, may, idle.free, idle.unlocked, thrown))
              (ground (arith, may, idle.free, idle.unlocked, thrown))
              (ground (arith, may, idle.free, idle.unlocked, thrown))
              (ground (arith, may, idle.free, idle.unlocked, thrown)),
        )
      ]

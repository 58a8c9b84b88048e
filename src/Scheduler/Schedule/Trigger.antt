-- ===== src/Scheduler/Schedule/Trigger.antt =====
-- apps/api/src/scheduler/scheduler.service.ts: `triggerPipelineSchedule`.
use sync_bridge_platform.Base.{
  String, Bool, true, false, ◌||◌, ◌==◌, some, [], ◌≡◌, refl, ap, inl, inr, arith, Bool-cases,
  Option-cases,
}
use sync_bridge_platform.Js.{Js}
use sync_bridge_platform.Database.{active, paused, archived, SyncPipeline, PipelineStatus, World}
use sync_bridge_platform.Effects.{Env}
use sync_bridge_platform.SyncRuns.Tables.{Actor, find_pipeline}
use sync_bridge_platform.SyncRuns.Execute.{
  is_privileged, get_by_id, find_one, has_active_run, create_scheduled_for_pipeline,
}
use sync_bridge_platform.SyncRuns.Execute.Active.{
  active_in, IsSingle, grown, create_scheduled_for_pipeline-Grows,
}
use sync_bridge_platform.Scheduler.Schedule.{refuse_active, trigger_pipeline_schedule}

module _ (js : Js) (env : Env) (id : String) (caller : Actor) where
  abbrev may_trigger : SyncPipeline js.Num → Bool
  may_trigger p = is_privileged caller.role || p.owner_id == caller.sub

  -- A trigger that is let through: of an active pipeline of the table, without an active run. Else it throws and
  -- creates no run.
  pub data Triggered (w v : World js.Num) : Type 0 where
    let_through :
        (p : SyncPipeline js.Num)
        → find_pipeline id w.pipelines ≡ some p
        → p.status ≡ active
        → may_trigger p ≡ true
        → has_active_run p.id w ≡ false
        → v.sync_runs
          ≡ (create_scheduled_for_pipeline js env p.id [] false (some caller) w).1.sync_runs
        → Triggered w v
    refused : v.sync_runs ≡ w.sync_runs → Triggered w v

  trigger_pipeline_schedule-Triggered :
      (w : World js.Num) → Triggered w (trigger_pipeline_schedule js env id caller w).1
  unfolding trigger_pipeline_schedule find_one get_by_id refuse_active
  trigger_pipeline_schedule-Triggered w = elim (Option-cases (find_pipeline id w.pipelines)) [
    | inl missing ↦ refused (ground (arith, missing))
    | inr (p, at) ↦ elim (Bool-cases (has_active_run p.id w)) [
      | inl busy ↦ refused (ground (arith, at, busy))
      | inr idle ↦ elim (Bool-cases (may_trigger p)) [
        | inr not_his ↦ refused (ground (arith, at, not_his))
        | inl may ↦ by_status p.status p refl at idle may
      ]
    ]
  ]
    where
      by_status :
          (status : PipelineStatus) {w : World js.Num} (p : SyncPipeline js.Num)
          → p.status ≡ status
          → find_pipeline id w.pipelines ≡ some p
          → has_active_run p.id w ≡ false
          → may_trigger p ≡ true
          → Triggered w (trigger_pipeline_schedule js env id caller w).1
      by_status active p is at idle may =
          let_through p at is may idle (ground (arith, at, idle, is, may))
      by_status paused p is at idle may = refused (ground (arith, at, idle, is, may))
      by_status archived p is at idle may = refused (ground (arith, at, idle, is, may))

  once_more : (w v : World js.Num) → Triggered w v → IsSingle w → IsSingle v
  once_more w v (let_through p at is may idle runs) once = record {
    at_most_one = λ q.
        let first =
          grown p.id w (create_scheduled_for_pipeline js env p.id [] false (some caller) w).1 idle
            (create_scheduled_for_pipeline-Grows js env p.id [] false (some caller) w) once in
        ground (arith, ap (active_in q) runs, first.at_most_one q);
  }
  once_more w v (refused runs) once = record {
    at_most_one = λ q. ground (arith, ap (active_in q) runs, once.at_most_one q);
  }

  -- A trigger creates a run only for an ACTIVE pipeline that the caller owns or may operate and that has no
  -- queued or running run; on all other calls the runs are those of before. So if no pipeline has two queued or
  -- running runs, none has two after the trigger, whether it returned or threw.
  pub trigger_pipeline_schedule-IsSingle :
      (w : World js.Num)
      → IsSingle w
      → Triggered w (trigger_pipeline_schedule js env id caller w).1
        × IsSingle (trigger_pipeline_schedule js env id caller w).1
  trigger_pipeline_schedule-IsSingle w once = (
    trigger_pipeline_schedule-Triggered w,
    once_more w _ (trigger_pipeline_schedule-Triggered w) once,
  )

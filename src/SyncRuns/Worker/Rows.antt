-- ===== src/SyncRuns/Worker/Rows.antt =====
-- The rows that `processQueuedSyncRun` of apps/api/src/sync-runs/sync-runs.service.ts is about, behind its
-- two ends.
use sync_bridge_platform.Base.{ℕ, String, some, ◌≡◌, refl, arith, ok, err}
use sync_bridge_platform.Js.{Js}
use sync_bridge_platform.Database.{
  SyncPipeline, SyncRun, BackgroundJob, ExecuteSyncRunJobPayload, World,
}
use sync_bridge_platform.Database.Laws.{find-update_self}
use sync_bridge_platform.Effects.{Error, Env, sanitize_error_message}
use sync_bridge_platform.SyncRuns.Tables.{
  find_pipeline, find_run, find_job, update_run, update_pipeline, update_job,
}
use sync_bridge_platform.SyncRuns.Records.{RunProcessingSummary}
use sync_bridge_platform.SyncRuns.Execute.{finished_run}
use sync_bridge_platform.SyncRuns.Worker.{completed_job, failed_run, failed_job, complete, fail}

-- The rows that a queued run is about, where they are in the tables.
pub record Rows {N : Type 0} (job_id run_id pipeline_id : String) (w : World N) (j : BackgroundJob)
    (r : SyncRun) (p : SyncPipeline N) : Type 0 where
  pub job : find_job job_id w.background_jobs ≡ some j
  pub run : find_run run_id w.sync_runs ≡ some r
  pub pipeline : find_pipeline pipeline_id w.pipelines ≡ some p

module _ (js : Js) (env : Env) where
  module _ (payload : ExecuteSyncRunJobPayload js.Num) (attempts : ℕ) where
    -- The rows behind a run that went through.
    pub complete-Rows :
        (job_id run_id pipeline_id : String) (started_at : ℕ) (s : RunProcessingSummary js.Num)
        (w : World js.Num)
        → (j : BackgroundJob) (r : SyncRun) (p : SyncPipeline js.Num)
        → Rows job_id run_id pipeline_id w j r p
        → let m = complete js env payload attempts job_id run_id pipeline_id started_at s w in
          let t = env.clock w.ticks in
          (m.0 ≡ ok tt)
          × Rows job_id run_id pipeline_id m.1
              (completed_job started_at t attempts j)
              (finished_run s t r)
              (record p { last_run_at = some t })
    unfolding complete update_run update_job update_pipeline
    complete-Rows job_id run_id pipeline_id started_at s w j r p rows =
        let t = env.clock w.ticks in
        let fr =
          find-update_self (λ (q : SyncRun). q.id) run_id (finished_run s t) w.sync_runs r
            (λ q. refl) rows.run in
        let fp =
          find-update_self (λ (q : SyncPipeline js.Num). q.id) pipeline_id
            (λ q. record q { last_run_at = some t }) w.pipelines p (λ q. refl) rows.pipeline in
        let fj =
          find-update_self (λ (q : BackgroundJob). q.id) job_id
            (completed_job started_at t attempts) w.background_jobs j (λ q. refl) rows.job in
        (
          ground (arith, rows.run, rows.pipeline, rows.job),
          record {
            job = ground (arith, fj, rows.run, rows.pipeline, rows.job);
            run = ground (arith, fr, rows.run, rows.pipeline, rows.job);
            pipeline = ground (arith, fp, rows.run, rows.pipeline, rows.job);
          },
        )

    -- The rows behind a run that threw.
    pub fail-Rows :
        (job_id run_id pipeline_id : String) (started_at : ℕ) (e : Error) (w : World js.Num)
        → (j : BackgroundJob) (r : SyncRun) (p : SyncPipeline js.Num)
        → Rows job_id run_id pipeline_id w j r p
        → let m = fail js env payload attempts job_id run_id pipeline_id started_at e w in
          let t = env.clock w.ticks in
          let message = sanitize_error_message "Background sync run failed" e in
          (m.0 ≡ err e)
          × Rows job_id run_id pipeline_id m.1
              (failed_job started_at t attempts message j)
              (failed_run t message r)
              (record p { last_run_at = some t })
    unfolding fail update_run update_job update_pipeline
    fail-Rows job_id run_id pipeline_id started_at e w j r p rows =
        let t = env.clock w.ticks in
        let message = sanitize_error_message "Background sync run failed" e in
        let fr =
          find-update_self (λ (q : SyncRun). q.id) run_id (failed_run t message) w.sync_runs r
            (λ q. refl) rows.run in
        let fp =
          find-update_self (λ (q : SyncPipeline js.Num). q.id) pipeline_id
            (λ q. record q { last_run_at = some t }) w.pipelines p (λ q. refl) rows.pipeline in
        let fj =
          find-update_self (λ (q : BackgroundJob). q.id) job_id
            (failed_job started_at t attempts message) w.background_jobs j (λ q. refl) rows.job in
        (
          ground (arith, rows.run, rows.pipeline, rows.job),
          record {
            job = ground (arith, fj, rows.run, rows.pipeline, rows.job);
            run = ground (arith, fr, rows.run, rows.pipeline, rows.job);
            pipeline = ground (arith, fp, rows.run, rows.pipeline, rows.job);
          },
        )

-- ===== src/SyncRuns/Worker/Laws.antt =====
-- apps/api/src/sync-runs/sync-runs.service.ts: the outcome of a queued run.
use mathlib.Core.Path.{subst}
use sync_bridge_platform.Base.{
  ℕ, suc, String, Option, none, some, ◌≡◌, refl, sym, ◌∙◌, ap, ◌⊎◌, inl, inr, arith, Result, ok,
  err, Option-cases,
}
use sync_bridge_platform.Js.{Js}
use sync_bridge_platform.Database.{
  SyncPipeline, SyncRun, BackgroundJob, ExecuteSyncRunJobPayload, World, update,
}
use sync_bridge_platform.Database.Laws.{find-update_self, find-id}
use sync_bridge_platform.Effects.{
  Error, pure, log, Env, continue, try_or, try_catch, sanitize_error_message, ◌>>=◌, ◌>>◌,
}
use sync_bridge_platform.SyncRuns.Tables.{
  Actor, actor_id, find_pipeline, find_run, find_job, update_run, update_job,
}
use sync_bridge_platform.SyncRuns.Records.{RunProcessingSummary, process_run_records}
use sync_bridge_platform.SyncRuns.Records.Frame.{process_run_records-SameTables}
use sync_bridge_platform.SyncRuns.Execute.{get_by_id, finished_run}
use sync_bridge_platform.SyncRuns.Worker.{
  processing_job, running_run, completed_job, failed_run, failed_job, complete, fail,
  process_queued_sync_run,
}
use sync_bridge_platform.SyncRuns.Records.Kept.{process_run_records-Kept}
use sync_bridge_platform.SyncRuns.Worker.Rows.{Rows, complete-Rows, fail-Rows}

module _ (js : Js) (env : Env) where
  module _ (payload : ExecuteSyncRunJobPayload js.Num) (attempts : ℕ) where
    abbrev requester : Option Actor
    requester =
        some (record { sub = payload.requested_by_user_id; role = payload.requested_by_role })

    -- The tables when the records' turn comes: the job is processing, the run is running.
    abbrev started : World js.Num → BackgroundJob → SyncRun → World js.Num
    started w j r =
        let t = env.clock w.ticks in
        ((log "background_job_started" "background_job" j.id (actor_id requester)
            >> log "sync_run_started" "sync_run" r.id (actor_id requester))
          (record w {
            background_jobs = update (λ q. q.id) j.id (processing_job t attempts) w.background_jobs;
            sync_runs = update (λ q. q.id) r.id (running_run t) w.sync_runs;
            ticks = suc w.ticks;
          })).1

    -- How an attempt at a queued run of job `j`, run `r` and pipeline `p` ends, by what its records gave.
    pub data Settled (w : World js.Num) (j : BackgroundJob) (r : SyncRun) (p : SyncPipeline js.Num)
        : Result Error (Unit {0}) → World js.Num → Type 0 where
      went_through :
          (s : RunProcessingSummary js.Num) (v w' : World js.Num) (q : SyncPipeline js.Num)
          → process_run_records js env r.id p requester payload.mock_records payload.ignore_cursor
              (started w j r)
            ≡ (ok s, v)
          → Rows j.id r.id p.id w'
              (completed_job
                (env.clock w.ticks)
                (env.clock v.ticks)
                attempts
                (processing_job (env.clock w.ticks) attempts j))
              (finished_run s (env.clock v.ticks) (running_run (env.clock w.ticks) r))
              q
          → q.last_run_at ≡ some (env.clock v.ticks)
          → Settled w j r p (ok tt) w'
      threw :
          (e : Error) (v w' : World js.Num) (q : SyncPipeline js.Num)
          → process_run_records js env r.id p requester payload.mock_records payload.ignore_cursor
              (started w j r)
            ≡ (err e, v)
          → (message : String) → message ≡ sanitize_error_message "Background sync run failed" e
          → Rows j.id r.id p.id w'
              (failed_job
                (env.clock w.ticks)
                (env.clock v.ticks)
                attempts
                message
                (processing_job (env.clock w.ticks) attempts j))
              (failed_run (env.clock v.ticks) message (running_run (env.clock w.ticks) r))
              q
          → q.last_run_at ≡ some (env.clock v.ticks)
          → Settled w j r p (err e) w'

    settle :
        (w v : World js.Num) (j : BackgroundJob) (r : SyncRun) (p : SyncPipeline js.Num)
        → (m : Result Error (RunProcessingSummary js.Num))
        → process_run_records js env r.id p requester payload.mock_records payload.ignore_cursor
            (started w j r)
          ≡ (m, v)
        → (q : SyncPipeline js.Num)
        → Rows j.id r.id p.id v
            (processing_job (env.clock w.ticks) attempts j)
            (running_run (env.clock w.ticks) r)
            q
        → let t = env.clock w.ticks in
          let c = continue m (complete js env payload attempts j.id r.id p.id t) v in
          let o = try_or c.0 pure (fail js env payload attempts j.id r.id p.id t) c.1 in
          Settled w j r p o.0 o.1
    settle w v j r p (ok s) h q rows =
        let t = env.clock w.ticks in
        let j' = processing_job t attempts j in
        let r' = running_run t r in
        let (done, after) =
          complete-Rows js env payload attempts j.id r.id p.id t s v j' r' q rows in
        let c = complete js env payload attempts j.id r.id p.id t s v in
        subst
          (λ (x : Result Error (Unit {0})).
            Settled w j r p (try_or x pure (fail js env payload attempts j.id r.id p.id t) c.1).0
              (try_or x pure (fail js env payload attempts j.id r.id p.id t) c.1).1)
          (sym done)
          (went_through s v c.1 (record q { last_run_at = some (env.clock v.ticks) }) h after refl)
    settle w v j r p (err e) h q rows =
        let t = env.clock w.ticks in
        let (done, after) =
          fail-Rows js env payload attempts j.id r.id p.id t e v (processing_job t attempts j)
            (running_run t r) q rows in
        let c = fail js env payload attempts j.id r.id p.id t e v in
        subst (λ (x : Result Error (Unit {0})). Settled w j r p x c.1) (sym done)
          (threw e v c.1 (record q { last_run_at = some (env.clock v.ticks) }) h
            (sanitize_error_message "Background sync run failed" e) refl after refl)

    -- A queued run whose job, run and pipeline are in the tables ends settled, whatever its records do:
    -- if their processing returned, the job is COMPLETED and the run SUCCESS or FAILED by the failures
    -- counted, and the call returns; if it threw, the job and the run are both FAILED with the same
    -- message, and the call throws the same error again. The pipeline's last run is the time of the end.
    pub process_queued_sync_run_settles :
        (w : World js.Num) (j : BackgroundJob) (r : SyncRun) (p : SyncPipeline js.Num)
        → Rows payload.background_job_id payload.sync_run_id payload.pipeline_id w j r p
        → let m = process_queued_sync_run js env payload attempts w in Settled w j r p m.0 m.1
    unfolding process_queued_sync_run get_by_id update_run update_job
    process_queued_sync_run_settles w j r p rows =
        let t = env.clock w.ticks in
        let ej =
          find-id (λ (x : BackgroundJob). x.id) payload.background_job_id w.background_jobs j
            rows.job in
        let er = find-id (λ (x : SyncRun). x.id) payload.sync_run_id w.sync_runs r rows.run in
        let ep =
          find-id (λ (x : SyncPipeline js.Num). x.id) payload.pipeline_id w.pipelines p
            rows.pipeline in
        let fj = subst (λ (x : String). find_job x w.background_jobs ≡ some j) (sym ej) rows.job in
        let fr = subst (λ (x : String). find_run x w.sync_runs ≡ some r) (sym er) rows.run in
        let fp =
          subst (λ (x : String). find_pipeline x w.pipelines ≡ some p) (sym ep) rows.pipeline in
        let m =
          process_run_records js env r.id p requester payload.mock_records payload.ignore_cursor
            (started w j r) in
        let same =
          process_run_records-SameTables js env r.id p requester payload.mock_records
            payload.ignore_cursor (started w j r) in
        let (q, kept) =
          process_run_records-Kept js env r.id p requester payload.mock_records
            payload.ignore_cursor (started w j r) p fp in
        let steps : process_queued_sync_run js env payload attempts w
            ≡ try_catch
                (process_run_records js env r.id p requester payload.mock_records
                    payload.ignore_cursor
                  >>= complete js env payload attempts j.id r.id p.id t)
                pure (fail js env payload attempts j.id r.id p.id t) (started w j r) =
          ground (arith, rows.job, rows.run, rows.pipeline, fj, fr) in
        let after : Rows j.id r.id p.id m.1 (processing_job t attempts j) (running_run t r) q =
          record {
            job =
                ap (find_job j.id) same.background_jobs
                ∙ find-update_self (λ (x : BackgroundJob). x.id) j.id (processing_job t attempts)
                    w.background_jobs j (λ x. refl) fj;
            run =
                ap (find_run r.id) same.sync_runs
                ∙ find-update_self (λ (x : SyncRun). x.id) r.id (running_run t) w.sync_runs r
                    (λ x. refl) fr;
            pipeline = kept;
          } in
        subst (λ (x : Result Error (Unit {0}) × World js.Num). Settled w j r p x.0 x.1) (sym steps)
          (settle w m.1 j r p m.0 refl q after)

    -- A queued run whose job, run or pipeline is not in the tables throws and writes nothing.
    pub process_queued_sync_run_missing :
        (w : World js.Num)
        → (find_job payload.background_job_id w.background_jobs ≡ none)
          ⊎ (find_run payload.sync_run_id w.sync_runs ≡ none)
          ⊎ (find_pipeline payload.pipeline_id w.pipelines ≡ none)
        → let m = process_queued_sync_run js env payload attempts w in
          (m.1 ≡ w) × ((m.0 ≡ ok tt) → ⊥)
    unfolding process_queued_sync_run get_by_id
    process_queued_sync_run_missing w h =
        elim (Option-cases (find_job payload.background_job_id w.background_jobs)) [
          | inl no_job ↦ (ground arith, λ d. absurd (ground arith))
          | inr (j, job) ↦ elim (Option-cases (find_run payload.sync_run_id w.sync_runs)) [
            | inl no_run ↦ (ground arith, λ d. absurd (ground arith))
            | inr (r, run) ↦ elim (Option-cases (find_pipeline payload.pipeline_id w.pipelines)) [
              | inl no_pipeline ↦ (ground arith, λ d. absurd (ground arith))
              | inr (p, pipeline) ↦ absurd (ground arith)
            ]
          ]
        ]

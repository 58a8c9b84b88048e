-- ===== src/Webhooks/Worker/Settles.antt =====
-- apps/api/src/webhooks/webhooks.service.ts: the job and the event behind an attempt of the worker.
use mathlib.Core.Path.{subst}
use sync_bridge_platform.Base.{
  ℕ, suc, String, some, ◌≡◌, refl, sym, ◌∙◌, ap, arith, Result, ok, err,
}
use sync_bridge_platform.Js.{Js}
use sync_bridge_platform.Database.{
  processed, failed, BackgroundJob, WebhookEvent, ProcessWebhookEventJobPayload, World, update,
}
use sync_bridge_platform.Database.Laws.{find-update_self, find-id}
use sync_bridge_platform.Effects.{
  Error, Env, pure, log, continue, try_or, try_catch, sanitize_error_message, ◌>>=◌, ◌>>◌,
}
use sync_bridge_platform.Effects.Frame.{Frame, Keeps}
use sync_bridge_platform.SyncRuns.Tables.{actor_id, find_job, update_job}
use sync_bridge_platform.SyncRuns.Worker.{processing_job, completed_job, failed_job}
use sync_bridge_platform.Webhooks.Tables.{find_event, update_event}
use sync_bridge_platform.Webhooks.Process.{
  WebhookProcessingSummary, settled_event, settle_event, summary_with, or_own_id,
  process_webhook_event_now,
}
use sync_bridge_platform.Webhooks.Process.Runs.{process_pipelines-Unharmed}
use sync_bridge_platform.Webhooks.Process.Handled.{
  Handled, unconnected, idle, ran, interrupted, process_webhook_event_now-Handled,
}
use sync_bridge_platform.Webhooks.Process.Steps.{process_webhook_event_now-Keeps}
use sync_bridge_platform.Webhooks.Worker.{
  actor, complete_event_job, fail_event_job, process_queued_webhook_event,
}

-- The jobs are the same.
abbrev jobs_alone : {N : Type 0} → Frame N
jobs_alone = record {
  Rel = λ v w. w.background_jobs ≡ v.background_jobs;
  self = λ w. refl;
  trans = λ a b. b ∙ a;
}

module _ (js : Js) (env : Env) (payload : ProcessWebhookEventJobPayload) (attempts : ℕ) where
  settle_event-jobs :
      (id : String) (status : _) (message : _) (action : String)
      → Keeps jobs_alone
          (settle_event js env (actor js env payload attempts) id status message action)
  unfolding settle_event update_event
  settle_event-jobs id status message action w = ground arith

  process_webhook_event_now-jobs :
      (id : String)
      → Keeps jobs_alone (process_webhook_event_now js env (actor js env payload attempts) id)
  process_webhook_event_now-jobs =
      process_webhook_event_now-Keeps js env (actor js env payload attempts) jobs_alone
        (λ e ps w.
          (process_pipelines-Unharmed js env (actor js env payload attempts) e.payload_json
            (or_own_id e.idempotency_key e.id) (summary_with processed "Webhook event processed.")
            ps w).background_jobs)
        settle_event-jobs

  complete_event_job-Rows :
      (job_id : String) (started_at : ℕ) (s : WebhookProcessingSummary) (w : World js.Num)
      (j : BackgroundJob)
      → find_job job_id w.background_jobs ≡ some j
      → let m = complete_event_job js env payload attempts job_id started_at s w in
        (m.0 ≡ ok tt)
        × (find_job job_id m.1.background_jobs
            ≡ some (completed_job started_at (env.clock w.ticks) attempts j))
        × (m.1.webhook_events ≡ w.webhook_events)
        × (m.1.sync_runs ≡ w.sync_runs)
  unfolding complete_event_job update_job
  complete_event_job-Rows job_id started_at s w j at =
      let found =
        find-update_self (λ (q : BackgroundJob). q.id) job_id
          (completed_job started_at (env.clock w.ticks) attempts) w.background_jobs j (λ q. refl)
          at in
      (ground (arith, at), ground (arith, at, found), ground (arith, at), ground (arith, at))

  fail_event_job-Rows :
      (job_id event_id : String) (started_at : ℕ) (x : Error) (w : World js.Num) (j : BackgroundJob)
      (e : WebhookEvent js.Num)
      → find_job job_id w.background_jobs ≡ some j
      → find_event event_id w.webhook_events ≡ some e
      → let m = fail_event_job js env payload attempts job_id event_id started_at x w in
        let message = sanitize_error_message "Webhook processing failed" x in
        (m.0 ≡ err x)
        × (find_job job_id m.1.background_jobs
            ≡ some (failed_job started_at (env.clock w.ticks) attempts message j))
        × (find_event event_id m.1.webhook_events
            ≡ some (settled_event failed (some message) (env.clock w.ticks) e))
  unfolding fail_event_job update_job update_event
  fail_event_job-Rows job_id event_id started_at x w j e job event =
      let message = sanitize_error_message "Webhook processing failed" x in
      let fj =
        find-update_self (λ (q : BackgroundJob). q.id) job_id
          (failed_job started_at (env.clock w.ticks) attempts message) w.background_jobs j
          (λ q. refl) job in
      let fe =
        find-update_self (λ (q : WebhookEvent js.Num). q.id) event_id
          (settled_event failed (some message) (env.clock w.ticks)) w.webhook_events e (λ q. refl)
          event in
      (ground (arith, job, event), ground (arith, job, event, fj), ground (arith, job, event, fe))

  -- The tables when the turn of the event comes: the job is processing.
  abbrev begun : World js.Num → BackgroundJob → WebhookEvent js.Num → World js.Num
  begun w j e =
      ((log "background_job_started" "background_job" j.id
            (actor_id (actor js env payload attempts))
          >> log "webhook_event_processing_started" "webhook_event" e.id
              (actor_id (actor js env payload attempts)))
        (record w {
          background_jobs =
              update (λ q. q.id) j.id (processing_job (env.clock w.ticks) attempts)
                w.background_jobs;
          ticks = suc w.ticks;
        })).1

  -- How an attempt at the job `j` and the event `e` ends.
  pub data Attempted (w : World js.Num) (j : BackgroundJob) (e : WebhookEvent js.Num)
      : Result Error (Unit {0}) → World js.Num → Type 0 where
    went_through :
        (s : WebhookProcessingSummary) (v w' : World js.Num)
        → Handled js env (actor js env payload attempts) (begun w j e) e (ok s) v
        → find_job j.id w'.background_jobs
          ≡ some (
              completed_job
                (env.clock w.ticks)
                (env.clock v.ticks)
                attempts
                (processing_job (env.clock w.ticks) attempts j))
        → w'.webhook_events ≡ v.webhook_events
        → w'.sync_runs ≡ v.sync_runs
        → Attempted w j e (ok tt) w'
    threw :
        (x : Error) (v w' : World js.Num)
        → Handled js env (actor js env payload attempts) (begun w j e) e (err x) v
        → (message : String) → message ≡ sanitize_error_message "Webhook processing failed" x
        → find_job j.id w'.background_jobs
          ≡ some (
              failed_job
                (env.clock w.ticks)
                (env.clock v.ticks)
                attempts
                message
                (processing_job (env.clock w.ticks) attempts j))
        → find_event e.id w'.webhook_events
          ≡ some (settled_event failed (some message) (env.clock v.ticks) e)
        → Attempted w j e (err x) w'

  still_there :
      (v : World js.Num) (e : WebhookEvent js.Num) (r : Result Error WebhookProcessingSummary)
      (w : World js.Num) (x : Error)
      → Handled js env (actor js env payload attempts) v e r w
      → r ≡ err x
      → find_event e.id w.webhook_events ≡ some e
  still_there v e _ _ x (unconnected w link s) same = absurd cc
  still_there v e _ _ x (idle c w link none_active s) same = absurd cc
  still_there v e _ _ x (ran c s u w link runs after) same = absurd cc
  still_there v e _ _ x (interrupted c y w link thrown still) same = still

  ended :
      (w v : World js.Num) (j : BackgroundJob) (e : WebhookEvent js.Num)
      (r : Result Error WebhookProcessingSummary)
      → Handled js env (actor js env payload attempts) (begun w j e) e r v
      → find_job j.id v.background_jobs ≡ some (processing_job (env.clock w.ticks) attempts j)
      → let c =
          continue r (complete_event_job js env payload attempts j.id (env.clock w.ticks)) v in
        let o =
          try_or c.0 pure
            (fail_event_job js env payload attempts j.id e.id (env.clock w.ticks))
            c.1 in
        Attempted w j e o.0 o.1
  ended w v j e (ok s) handled job =
      let t = env.clock w.ticks in
      let (done, found, events, runs) =
        complete_event_job-Rows j.id t s v (processing_job t attempts j) job in
      let c = complete_event_job js env payload attempts j.id t s v in
      subst
        (λ (x : Result Error (Unit {0})).
          Attempted w j e (try_or x pure (fail_event_job js env payload attempts j.id e.id t) c.1).0
            (try_or x pure (fail_event_job js env payload attempts j.id e.id t) c.1).1)
        (sym done) (went_through s v c.1 handled found events runs)
  ended w v j e (err x) handled job =
      let t = env.clock w.ticks in
      let (done, found, event) =
        fail_event_job-Rows j.id e.id t x v (processing_job t attempts j) e job
          (still_there (begun w j e) e (err x) v x handled refl) in
      let c = fail_event_job js env payload attempts j.id e.id t x v in
      subst (λ (o : Result Error (Unit {0})). Attempted w j e o c.1) (sym done)
        (threw x v c.1 handled (sanitize_error_message "Webhook processing failed" x) refl found
          event)

  -- An attempt of the worker whose job and event are in the tables leaves neither of them open. If the
  -- processing returned, the job is COMPLETED, the event and its runs are as the processing left them, and
  -- the call returns. If it threw, the job and the event are FAILED with the same message, and the call
  -- throws the same error again.
  pub process_queued_webhook_event-Attempted :
      (w : World js.Num) (j : BackgroundJob) (e : WebhookEvent js.Num)
      → find_job payload.background_job_id w.background_jobs ≡ some j
      → find_event payload.webhook_event_id w.webhook_events ≡ some e
      → let m = process_queued_webhook_event js env payload attempts w in Attempted w j e m.0 m.1
  unfolding process_queued_webhook_event update_job
  process_queued_webhook_event-Attempted w j e job event =
      let t = env.clock w.ticks in
      let ej =
        find-id (λ (x : BackgroundJob). x.id) payload.background_job_id w.background_jobs j job in
      let ee =
        find-id (λ (x : WebhookEvent js.Num). x.id) payload.webhook_event_id w.webhook_events e
          event in
      let fj = subst (λ (x : String). find_job x w.background_jobs ≡ some j) (sym ej) job in
      let fe = subst (λ (x : String). find_event x w.webhook_events ≡ some e) (sym ee) event in
      let m = process_webhook_event_now js env (actor js env payload attempts) e.id (begun w j e) in
      let steps : process_queued_webhook_event js env payload attempts w
          ≡ try_catch
              (process_webhook_event_now js env (actor js env payload attempts) e.id
                >>= complete_event_job js env payload attempts j.id t)
              pure (fail_event_job js env payload attempts j.id e.id t) (begun w j e) =
        ground (arith, job, event, fj) in
      subst (λ (x : Result Error (Unit {0}) × World js.Num). Attempted w j e x.0 x.1) (sym steps)
        (ended w m.1 j e m.0
          (process_webhook_event_now-Handled js env (actor js env payload attempts) e.id
            (begun w j e) e fe)
          (ap (find_job j.id) (process_webhook_event_now-jobs e.id (begun w j e))
            ∙ find-update_self (λ (x : BackgroundJob). x.id) j.id (processing_job t attempts)
                w.background_jobs j (λ x. refl) fj))

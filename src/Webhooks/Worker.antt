-- ===== src/Webhooks/Worker.antt =====
-- apps/api/src/webhooks/webhooks.service.ts: `processQueuedWebhookEvent`, one attempt of the worker.
pub mod Settles
use sync_bridge_platform.Base.{ℕ, ◌-◌, String, Option, none, some, is_empty, if◌then◌else◌}
use sync_bridge_platform.Js.{Js}
use sync_bridge_platform.Database.{failed, UserRole, ProcessWebhookEventJobPayload}
use sync_bridge_platform.Effects.{
  Error, not_found, Env, M, pure, throw, gets, or_throw, draw, log, try_catch,
  sanitize_error_message, ◌>>=◌, ◌>>◌,
}
use sync_bridge_platform.SyncRuns.Tables.{Actor, actor_id, find_job, update_job}
use sync_bridge_platform.SyncRuns.Worker.{processing_job, completed_job, failed_job}
use sync_bridge_platform.Webhooks.Tables.{find_event, update_event}
use sync_bridge_platform.Webhooks.Process.{
  WebhookProcessingSummary, settled_event, process_webhook_event_now,
}

abbrev actor_with : Option String → Option UserRole → Option Actor
actor_with (some sub) (some role) =
    if is_empty sub then none else some (record { sub = sub; role = role })
actor_with _ _ = none

-- `actorFromPayload`
unfoldable pub actor_from_payload : ProcessWebhookEventJobPayload → Option Actor
actor_from_payload payload = actor_with payload.requested_by_user_id payload.requested_by_role

module _ (js : Js) (env : Env) (payload : ProcessWebhookEventJobPayload) (attempts : ℕ) where
  abbrev pub actor : Option Actor
  actor = actor_from_payload payload

  unfoldable pub complete_event_job : String → ℕ → WebhookProcessingSummary → M js.Num (Unit {0})
  complete_event_job job_id started_at summary = do
    finished_at ← draw env.clock
    j ← update_job job_id (completed_job started_at finished_at attempts)
    log "background_job_completed" "background_job" job_id (actor_id actor)

  -- The `catch` block.
  unfoldable pub fail_event_job : String → String → ℕ → Error → M js.Num (Unit {0})
  fail_event_job job_id event_id started_at error = do
    finished_at ← draw env.clock
    let message = sanitize_error_message "Webhook processing failed" error
    e ← update_event event_id (settled_event failed (some message) finished_at)
    j ← update_job job_id (failed_job started_at finished_at attempts message)
    log "webhook_event_processing_failed" "webhook_event" event_id (actor_id actor)
    log "background_job_failed" "background_job" job_id (actor_id actor)
    throw error

  unfoldable pub process_queued_webhook_event : M js.Num (Unit {0})
  process_queued_webhook_event = do
    found_job ← gets (λ w. find_job payload.background_job_id w.background_jobs)
    job ← or_throw found_job (not_found "Background job not found")
    found_event ← gets (λ w. find_event payload.webhook_event_id w.webhook_events)
    event ← or_throw found_event (not_found "Webhook event not found")
    started_at ← draw env.clock
    j ← update_job job.id (processing_job started_at attempts)
    log "background_job_started" "background_job" job.id (actor_id actor)
    log "webhook_event_processing_started" "webhook_event" event.id (actor_id actor)
    try_catch
        (process_webhook_event_now js env actor event.id >>= complete_event_job job.id started_at)
        pure (fail_event_job job.id event.id started_at)

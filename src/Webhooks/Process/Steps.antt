-- ===== src/Webhooks/Process/Steps.antt =====
-- apps/api/src/webhooks/webhooks.service.ts: `processWebhookEventNow` keeps what the runs and the settling of
-- the event keep.
use sync_bridge_platform.Base.{String, Option, none, some, List, [], ◌∷◌, inl, inr, Option-cases}
use sync_bridge_platform.Js.{Js}
use sync_bridge_platform.Database.{
  processed, failed, ignored, WebhookEventStatus, SyncPipeline, WebhookEvent, Connector,
}
use sync_bridge_platform.Effects.{Env}
use sync_bridge_platform.Effects.Frame.{Frame, Keeps, Keeps-continue}
use sync_bridge_platform.SyncRuns.Tables.{Actor}
use sync_bridge_platform.Webhooks.Tables.{find_event, connector_of, active_pipelines}
use sync_bridge_platform.Webhooks.Process.{
  summary_with, settle_event, or_own_id, process_pipelines, by_pipelines, by_connector,
  process_webhook_event_now,
}

module _ (js : Js) (env : Env) (actor : Option Actor) (frame : Frame js.Num)
    (runs : (e : WebhookEvent js.Num) (ps : List (SyncPipeline js.Num))
      → Keeps frame (
          process_pipelines js env actor e.payload_json
            (or_own_id e.idempotency_key e.id)
            (summary_with processed "Webhook event processed.")
            ps))
    (settles : (id : String) (status : WebhookEventStatus) (message : Option String)
        (action : String)
      → Keeps frame (settle_event js env actor id status message action)) where
  by_pipelines-Keeps :
      (e : WebhookEvent js.Num) (ps : List (SyncPipeline js.Num))
      → Keeps frame (by_pipelines js env actor e ps)
  unfolding by_pipelines
  by_pipelines-Keeps e [] w =
      let m = settle_event js env actor e.id ignored none "webhook_event_ignored" w in
      Keeps-continue frame m.0 _ {w = w} (settles e.id ignored none "webhook_event_ignored" w)
        (λ _. frame.self m.1)
  by_pipelines-Keeps e (p ∷ ps) w =
      let key = or_own_id e.idempotency_key e.id in
      let start = summary_with processed "Webhook event processed." in
      let m = process_pipelines js env actor e.payload_json key start (p ∷ ps) w in
      Keeps-continue frame m.0 _ {w = w} (runs e (p ∷ ps) w) (λ s.
        let n = settle_event js env actor e.id processed none "webhook_event_processed" m.1 in
        Keeps-continue frame n.0 _ {w = m.1}
          (settles e.id processed none "webhook_event_processed" m.1) (λ _. frame.self n.1))

  by_connector-Keeps :
      (e : WebhookEvent js.Num) (c : Option (Connector js.Num))
      → Keeps frame (by_connector js env actor e c)
  unfolding by_connector
  by_connector-Keeps e none w =
      let message = some "Connector not found for webhook event" in
      let m = settle_event js env actor e.id failed message "webhook_event_processing_failed" w in
      Keeps-continue frame m.0 _ {w = w}
        (settles e.id failed message "webhook_event_processing_failed" w) (λ _. frame.self m.1)
  by_connector-Keeps e (some c) w = by_pipelines-Keeps e (active_pipelines c.id w.pipelines) w

  pub process_webhook_event_now-Keeps :
      (id : String) → Keeps frame (process_webhook_event_now js env actor id)
  unfolding process_webhook_event_now
  process_webhook_event_now-Keeps id w = elim (Option-cases (find_event id w.webhook_events)) [
    | inl missing ↦ rw (missing, process_webhook_event_now) (frame.self w)
    | inr (e, at) ↦
        rw (at, process_webhook_event_now)
          (by_connector-Keeps e (connector_of e.connector_id w.connectors) w)
  ]

-- ===== src/Webhooks/Process.antt =====
-- apps/api/src/webhooks/webhooks.service.ts: `processWebhookEventNow`, which runs an event through the
-- active pipelines of its connector.
pub mod Runs
pub mod Outcome
pub mod Trail
pub mod Each
pub mod Handled
pub mod Identity
pub mod Steps
use sync_bridge_platform.Base.{
  ℕ, ◌+◌, String, Option, none, some, List, [], ◌∷◌, ◌++◌, map, Result, ok, err,
}
use sync_bridge_platform.Js.{Js, Fields}
use sync_bridge_platform.Transformations.Errors.{TransformationErrorDetail}
use sync_bridge_platform.Transformations.Mapping.{
  NormalizedMappingField, MappingError, invalid_mapping, runtime_error, compile_mapping,
}
use sync_bridge_platform.Database.{
  success, failed, running, processed, ignored, webhook, SyncRunStatus, WebhookEventStatus,
  SyncPipeline, SyncRun, SyncedRecord, WebhookEvent, Connector,
}
use sync_bridge_platform.Effects.{
  not_found, plain, Env, M, pure, gets, or_throw, draw, log, join, sanitize_error_message, ◌>>=◌,
  ◌>>◌,
}
use sync_bridge_platform.SyncRuns.Tables.{
  Actor, actor_id, update_run, update_pipeline, create_run, create_synced_record,
}
use sync_bridge_platform.SyncRuns.Records.{transform}
use sync_bridge_platform.Webhooks.Tables.{find_event, connector_of, active_pipelines, update_event}

pub record WebhookProcessingSummary : Type 0 where
  pub status : WebhookEventStatus
  pub pipeline_ids : List String
  pub sync_run_ids : List String
  pub records_processed : ℕ
  pub records_failed : ℕ
  pub message : String

-- What the run of one pipeline counts.
pub record RunCounts : Type 0 where
  pub records_processed : ℕ
  pub records_failed : ℕ

abbrev pub one_processed : RunCounts
one_processed = record { records_processed = 1; records_failed = 0 }

abbrev pub one_failed : RunCounts
one_failed = record { records_processed = 0; records_failed = 1 }

-- The summary with one more run.
abbrev pub counted :
    String → String → RunCounts → WebhookProcessingSummary → WebhookProcessingSummary
counted pipeline_id sync_run_id counts s = record s {
  pipeline_ids = s.pipeline_ids ++ pipeline_id ∷ [];
  sync_run_ids = s.sync_run_ids ++ sync_run_id ∷ [];
  records_processed = s.records_processed + counts.records_processed;
  records_failed = s.records_failed + counts.records_failed;
}

abbrev pub mapping_message : MappingError → String
mapping_message (invalid_mapping errors) = join (map (λ e. e.message) errors)
mapping_message (runtime_error message) =
    sanitize_error_message "Webhook processing failed" (plain message)

abbrev pub closed_run : SyncRunStatus → RunCounts → Option String → ℕ → SyncRun → SyncRun
closed_run status counts message finished_at r = record r {
  status = status;
  records_received = 1;
  records_processed = counts.records_processed;
  records_failed = counts.records_failed;
  error_message = message;
  finished_at = some finished_at;
}

abbrev pub started_run : String → ℕ → String → SyncRun
started_run pipeline_id started_at id = record {
  id = id;
  pipeline_id = pipeline_id;
  status = running;
  trigger_type = webhook;
  records_received = 0;
  records_processed = 0;
  records_failed = 0;
  error_message = none;
  started_at = some started_at;
  finished_at = none;
}

abbrev pub summary_with : WebhookEventStatus → String → WebhookProcessingSummary
summary_with status message = record {
  status = status;
  pipeline_ids = [];
  sync_run_ids = [];
  records_processed = 0;
  records_failed = 0;
  message = message;
}

abbrev pub settled_event :
    {N : Type 0} → WebhookEventStatus → Option String → ℕ → WebhookEvent N → WebhookEvent N
settled_event status message processed_at e = record e {
  status = status;
  error_message = message;
  processed_at = some processed_at;
}

abbrev pub or_own_id : Option String → String → String
or_own_id (some key) id = key
or_own_id none id = id

module _ (js : Js) (env : Env) (actor : Option Actor) where
  -- The two updates at the end of each branch of `processWebhookForPipeline`.
  unfoldable pub close_run :
      String → String → SyncRunStatus → RunCounts → Option String → M js.Num (Unit {0})
  close_run pipeline_id sync_run_id status counts message = do
    finished_at ← draw env.clock
    r ← update_run sync_run_id (closed_run status counts message finished_at)
    last_run_at ← draw env.clock
    p ← update_pipeline pipeline_id (λ p. record p { last_run_at = some last_run_at })
    pure tt

  unfoldable pub fail_run : String → String → String → M js.Num RunCounts
  fail_run pipeline_id sync_run_id message = do
    close_run pipeline_id sync_run_id failed one_failed (some message)
    log "transformation_failed" "sync_run" sync_run_id (actor_id actor)
    log "sync_run_failed" "sync_run" sync_run_id (actor_id actor)
    pure one_failed

  abbrev pub webhook_row :
      String → Fields js.Num → String → String → Fields js.Num → String → SyncedRecord js.Num
  webhook_row pipeline_id payload external_id sync_run_id normalized id = record {
    id = id;
    pipeline_id = pipeline_id;
    sync_run_id = some sync_run_id;
    external_id = some external_id;
    source_type = "WEBHOOK";
    raw_json = payload;
    normalized_json = normalized;
  }

  -- Behind the transformation, by the errors that it reported.
  unfoldable pub settle_payload :
      String
      → Fields js.Num
      → String
      → String
      → Fields js.Num
      → List TransformationErrorDetail
      → M js.Num RunCounts
  settle_payload pipeline_id payload external_id sync_run_id normalized (e ∷ errors) =
      fail_run pipeline_id sync_run_id "One or more records failed during processing."
  settle_payload pipeline_id payload external_id sync_run_id normalized [] = do
    row ←
        create_synced_record env
          (webhook_row pipeline_id payload external_id sync_run_id normalized)
    close_run pipeline_id sync_run_id success one_processed none
    log "transformation_applied" "sync_run" sync_run_id (actor_id actor)
    log "sync_run_completed" "sync_run" sync_run_id (actor_id actor)
    log "synced_record_created" "synced_record" row.id (actor_id actor)
    pure one_processed

  unfoldable pub by_mapping :
      String
      → Fields js.Num
      → String
      → String
      → Result MappingError (List (NormalizedMappingField js.Num))
      → M js.Num RunCounts
  unfolding settle_payload
  by_mapping pipeline_id payload external_id sync_run_id (err e) =
      fail_run pipeline_id sync_run_id (mapping_message e)
  by_mapping pipeline_id payload external_id sync_run_id (ok fields) =
      transform js env payload fields >>= λ p.
      settle_payload pipeline_id payload external_id sync_run_id p.normalized p.errors

  unfoldable pub process_webhook_for_pipeline :
      String → Fields js.Num → Fields js.Num → String → String → M js.Num RunCounts
  unfolding by_mapping
  process_webhook_for_pipeline pipeline_id mapping_json payload external_id sync_run_id =
      by_mapping pipeline_id payload external_id sync_run_id (compile_mapping js mapping_json)

  -- The loop over the pipelines.
  unfoldable pub process_pipelines :
      Fields js.Num
      → String
      → WebhookProcessingSummary
      → List (SyncPipeline js.Num)
      → M js.Num WebhookProcessingSummary
  process_pipelines payload external_id s [] = pure s
  process_pipelines payload external_id s (p ∷ ps) = do
    started_at ← draw env.clock
    run ← create_run env (started_run p.id started_at)
    log "sync_run_started" "sync_run" run.id (actor_id actor)
    counts ← process_webhook_for_pipeline p.id p.mapping_json payload external_id run.id
    process_pipelines payload external_id (counted p.id run.id counts s) ps

  unfoldable pub settle_event :
      String → WebhookEventStatus → Option String → String → M js.Num (Unit {0})
  settle_event event_id status message action = do
    processed_at ← draw env.clock
    e ← update_event event_id (settled_event status message processed_at)
    log action "webhook_event" event_id (actor_id actor)

  unfoldable pub by_pipelines :
      WebhookEvent js.Num → List (SyncPipeline js.Num) → M js.Num WebhookProcessingSummary
  by_pipelines event [] = do
    settle_event event.id ignored none "webhook_event_ignored"
    pure (summary_with ignored "Webhook event ignored: no active pipelines for connector.")
  by_pipelines event (p ∷ ps) = do
    s ←
        process_pipelines event.payload_json (or_own_id event.idempotency_key event.id)
          (summary_with processed "Webhook event processed.") (p ∷ ps)
    settle_event event.id processed none "webhook_event_processed"
    pure s

  unfoldable pub by_connector :
      WebhookEvent js.Num → Option (Connector js.Num) → M js.Num WebhookProcessingSummary
  unfolding by_pipelines
  by_connector event none = do
    settle_event event.id failed (some "Connector not found for webhook event")
        "webhook_event_processing_failed"
    pure (summary_with failed "Webhook event failed: connector not found.")
  by_connector event (some c) = do
    ps ← gets (λ w. active_pipelines c.id w.pipelines)
    by_pipelines event ps

  unfoldable pub process_webhook_event_now : String → M js.Num WebhookProcessingSummary
  unfolding by_connector
  process_webhook_event_now event_id = do
    found ← gets (λ w. find_event event_id w.webhook_events)
    event ← or_throw found (not_found "Webhook event not found")
    connector ← gets (λ w. connector_of event.connector_id w.connectors)
    by_connector event connector

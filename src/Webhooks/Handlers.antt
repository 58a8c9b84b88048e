-- ===== src/Webhooks/Handlers.antt =====
-- apps/api/src/webhooks/webhooks.service.ts: the handlers that users and connectors call.
pub mod Distinct
pub mod Delivery
pub mod Access
pub mod Answer
use sync_bridge_platform.Base.{
  String, Bool, true, false, not, ◌&&◌, ◌||◌, Option, none, some, List, [], ◌∷◌, ◌++◌, ◌==◌, ok,
  err, if◌then◌else◌,
}
use sync_bridge_platform.Js.{Js, Json, Fields}
use sync_bridge_platform.Database.{
  received, processed, failed, ignored, queued, webhook_processing, WebhookEvent,
  WebhookEventStatus, Connector, BackgroundJob, ProcessWebhookEventJobPayload, UserRole,
}
use sync_bridge_platform.Effects.{
  not_found, forbidden, bad_request, payload_too_large, Env, M, pure, gets, or_throw, throw_if, log,
  ◌>>=◌, ◌>>◌,
}
use sync_bridge_platform.SyncRuns.Tables.{Actor, actor_id, create_job}
use sync_bridge_platform.SyncRuns.Execute.{is_privileged, enqueue_job}
use sync_bridge_platform.Webhooks.Request.{
  sanitize_payload, redact_headers, get_idempotency_key, event_type, is_too_large,
}
use sync_bridge_platform.Webhooks.Tables.{
  find_event, find_connector, find_delivery, connector_of, update_event, create_event,
}
use sync_bridge_platform.Webhooks.Process.{process_webhook_event_now}

pub record WebhookResponse : Type 0 where
  pub event_id : String
  pub status : WebhookEventStatus
  pub duplicate : Bool
  pub job_id : Option String
  pub message : String

abbrev pub webhook_job : String → String → BackgroundJob
webhook_job event_id id = record {
  id = id;
  type = webhook_processing;
  status = queued;
  entity_type = "webhook_event";
  entity_id = event_id;
  attempts = 0;
  last_error = none;
  started_at = none;
  finished_at = none;
  duration_ms = none;
}

abbrev pub sub_of : Option Actor → Option String
sub_of none = none
sub_of (some a) = some a.sub

abbrev pub role_of : Option Actor → Option UserRole
role_of none = none
role_of (some a) = some a.role

abbrev pub owned_by : Option String → String → Bool
owned_by none sub = false
owned_by (some owner_id) sub = owner_id == sub

abbrev pub is_failed : WebhookEventStatus → Bool
is_failed failed = true
is_failed _ = false

abbrev pub is_final : WebhookEventStatus → Bool
is_final processed = true
is_final ignored = true
is_final _ = false

abbrev pub duplicate_of : {N : Type 0} → WebhookEvent N → WebhookResponse
duplicate_of e = record {
  event_id = e.id;
  status = e.status;
  duplicate = true;
  job_id = none;
  message = "Duplicate webhook event ignored.";
}

abbrev status_or : {N : Type 0} → Option (WebhookEvent N) → WebhookEventStatus → WebhookEventStatus
status_or none status = status
status_or (some e) status = e.status

-- `findFirst({ where: { entityType, entityId }, orderBy: { createdAt: 'desc' } })`
unfoldable pub latest_job : String → String → List BackgroundJob → Option BackgroundJob
latest_job entity_type entity_id [] = none
latest_job entity_type entity_id (j ∷ jobs) = elim (latest_job entity_type entity_id jobs) [
  | some later ↦ some later
  | none ↦ if j.entity_type == entity_type && j.entity_id == entity_id then some j else none
]

abbrev pub queued_action : Bool → String
queued_action true = "webhook_event_retry_queued"
queued_action false = "webhook_event_processing_queued"

abbrev pub queued_message : Bool → String
queued_message true = "Webhook event retry queued for processing."
queued_message false = "Webhook event queued for processing."

module _ {N : Type 0} where
  unfoldable pub enqueue_process_webhook_event_job :
      Env → ProcessWebhookEventJobPayload → M N (Unit {0})
  unfolding enqueue_job
  enqueue_process_webhook_event_job env payload =
      enqueue_job env (λ w. record w { webhook_queue = w.webhook_queue ++ payload ∷ [] })

  abbrev pub owner_of : Option (Connector N) → Option String
  owner_of none = none
  owner_of (some c) = some c.owner_id

  unfoldable pub get_accessible_event : String → Actor → M N (WebhookEvent N)
  get_accessible_event id caller = do
    found ← gets (λ w. find_event id w.webhook_events)
    event ← or_throw found (not_found "Webhook event not found")
    connector ← gets (λ w. connector_of event.connector_id w.connectors)
    throw_if (not (is_privileged caller.role) && not (owned_by (owner_of connector) caller.sub))
        (forbidden "You do not have access to this webhook event")
    pure event

  unfoldable pub get_event_job : String → Actor → M N BackgroundJob
  get_event_job id caller = do
    event ← get_accessible_event id caller
    found ← gets (λ w. latest_job "webhook_event" id w.background_jobs)
    or_throw found (not_found "Background job not found for webhook event")

module _ (js : Js) (env : Env) where
  abbrev pub new_event :
      String
      → Option (Connector js.Num)
      → Option String
      → Fields js.Num
      → Fields js.Num
      → String
      → WebhookEvent js.Num
  new_event ref connector key payload headers id = record {
    id = id;
    source_connector_ref = ref;
    connector_id = elim connector [ none ↦ none | some c ↦ some c.id ];
    idempotency_key = key;
    event_type = event_type js payload;
    status = received;
    payload_json = payload;
    headers_json = redact_headers js headers;
    processed_at = none;
    error_message = none;
  }

  -- Processing in mode `sync`, with the answer.
  unfoldable pub answer_now : String → Option Actor → M js.Num WebhookResponse
  answer_now event_id actor = do
    s ← process_webhook_event_now js env actor event_id
    updated ← gets (λ w. find_event event_id w.webhook_events)
    pure (record {
      event_id = event_id;
      status = status_or updated s.status;
      duplicate = false;
      job_id = none;
      message = s.message;
    })

  -- Queueing in mode `async`, with the answer.
  unfoldable pub answer_later : String → Option Actor → String → String → M js.Num WebhookResponse
  answer_later event_id actor action message = do
    job ← create_job env (webhook_job event_id)
    enqueue_process_webhook_event_job env (record {
      background_job_id = job.id;
      webhook_event_id = event_id;
      requested_by_user_id = sub_of actor;
      requested_by_role = role_of actor;
    })
    log action "webhook_event" event_id (actor_id actor)
    log "background_job_queued" "background_job" job.id (actor_id actor)
    pure (record {
      event_id = event_id;
      status = received;
      duplicate = false;
      job_id = some job.id;
      message = message;
    })

  -- Queued or processed at once, by the mode of the process.
  abbrev pub by_mode : String → Option Actor → String → String → M js.Num WebhookResponse
  by_mode event_id actor action message =
      if env.is_async_mode
      then answer_later event_id actor action message
      else answer_now event_id actor

  -- Behind the search for an earlier delivery.
  unfoldable pub accept_event :
      String
      → Option String
      → Fields js.Num
      → Fields js.Num
      → Option Actor
      → M js.Num WebhookResponse
  accept_event ref key payload headers actor = do
    connector ← gets (λ w. find_connector ref w.connectors)
    event ← create_event env (new_event ref connector key payload headers)
    log "webhook_event_received" "webhook_event" event.id (actor_id actor)
    by_mode event.id actor "webhook_event_processing_queued" "Webhook event queued for processing."

  unfoldable pub unless_delivered :
      Option (WebhookEvent js.Num)
      → Option Actor
      → M js.Num WebhookResponse
      → M js.Num WebhookResponse
  unless_delivered none actor accept = accept
  unless_delivered (some earlier) actor accept = do
    log "webhook_event_duplicate_ignored" "webhook_event" earlier.id (actor_id actor)
    pure (duplicate_of earlier)

  abbrev pub earlier_delivery :
      String → Option String → List (WebhookEvent js.Num) → Option (WebhookEvent js.Num)
  earlier_delivery ref none events = none
  earlier_delivery ref (some key) events = find_delivery ref key events

  unfoldable pub receive_event :
      String → Option (Json js.Num) → Fields js.Num → Option Actor → M js.Num WebhookResponse
  unfolding unless_delivered
  receive_event ref body headers actor = do
    let payload = sanitize_payload body
    throw_if (is_too_large js payload) (payload_too_large "Webhook payload exceeds allowed size")
    let key = get_idempotency_key js headers
    earlier ← gets (λ w. earlier_delivery ref key w.webhook_events)
    unless_delivered earlier actor (accept_event ref key payload headers actor)

  abbrev pub renewed_event : WebhookEvent js.Num → WebhookEvent js.Num
  renewed_event e = record e { status = received; error_message = none; processed_at = none }

  unfoldable pub queue_or_process_event : String → Actor → Bool → M js.Num WebhookResponse
  queue_or_process_event event_id caller is_retry = do
    e ← update_event event_id renewed_event
    by_mode e.id (some caller) (queued_action is_retry) (queued_message is_retry)

  unfoldable pub retry_event : String → Actor → M js.Num WebhookResponse
  retry_event id caller = do
    event ← get_accessible_event id caller
    throw_if (not (is_failed event.status))
        (bad_request ("Only FAILED webhook events can be retried" ∷ []))
    queue_or_process_event event.id caller true

  unfoldable pub process_event : String → Actor → M js.Num WebhookResponse
  process_event id caller = do
    event ← get_accessible_event id caller
    throw_if (is_final event.status) (bad_request ("Webhook event is already finalized" ∷ []))
    queue_or_process_event event.id caller false

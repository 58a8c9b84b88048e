-- ===== src/Tests/Webhooks.antt =====
-- Webhook events on concrete tables.
use sync_bridge_platform.Base.{not, ℕ, true, false, none, some, [], ◌∷◌, ◌≡◌, refl, ok, trim}
use sync_bridge_platform.Js.{Json, Fields, end, field, str, read, own, write}
use sync_bridge_platform.Transformations.Mapping.{compile_mapping, compile_candidate}
use sync_bridge_platform.Transformations.Record.{
  transform_record_with_compiled_mapping, transform_field, coerce_value, is_missing_value,
}
use sync_bridge_platform.Paths.{assert_safe_path, get_by_path, set_by_path, walk, put}
use sync_bridge_platform.Database.{
  rest_api, received, processed, failed, update, active, operator, Connector, WebhookEvent,
  WebhookEventStatus, ProcessWebhookEventJobPayload, World, find,
}
use sync_bridge_platform.Effects.{Env, log}
use sync_bridge_platform.SyncRuns.Tables.{
  Actor, actor_id, update_run, update_pipeline, create_run, create_synced_record,
}
use sync_bridge_platform.SyncRuns.Records.{transform}
use sync_bridge_platform.Webhooks.Request.{get_idempotency_key, is_too_large}
use sync_bridge_platform.Webhooks.Tables.{
  find_delivery, connector_of, active_pipelines, update_event,
}
use sync_bridge_platform.Webhooks.Process.{
  by_connector, by_pipelines, process_pipelines, process_webhook_for_pipeline, by_mapping,
  settle_payload, close_run, settle_event, process_webhook_event_now,
}
use sync_bridge_platform.Webhooks.Process.Each.{EachRan}
use sync_bridge_platform.Webhooks.Process.Handled.{
  HandledBy, no_runs, process_webhook_event_now-EachRan,
}
use sync_bridge_platform.Database.Laws.{HasDistinctIds}
use sync_bridge_platform.Webhooks.Process.Identity.{identities}
use sync_bridge_platform.Webhooks.Handlers.{
  WebhookResponse, is_failed, is_final, duplicate_of, answer_now, receive_event, retry_event,
  process_event,
}
use sync_bridge_platform.Webhooks.Handlers.Distinct.{IsDistinct}
use sync_bridge_platform.Webhooks.Handlers.Delivery.{receive_event_twice, receive_event-IsDistinct}
use sync_bridge_platform.Webhooks.Handlers.Access.{
  Guarded, retry_event-Guarded, process_event-Guarded,
}
use sync_bridge_platform.Webhooks.Handlers.Answer.{Tells, answer_now-Tells}
use sync_bridge_platform.Webhooks.Worker.{process_queued_webhook_event}
use sync_bridge_platform.Webhooks.Worker.Settles.{Attempted, process_queued_webhook_event-Attempted}
use sync_bridge_platform.Tests.Data.{runtime, nth_id, pipeline, raw, queued_job, world_of}

-- Where runs are executed at once.
abbrev pub at_once : Env
at_once = record {
  uuid = nth_id;
  clock = λ n. n;
  computed = λ mode n. "computed";
  insert_fails = λ n. false;
  audit_error = λ n. none;
  is_async_mode = false;
  has_queue = false;
  add_error = λ n. none;
}

abbrev shop : Connector ℕ
shop = record {
  id = "c1";
  name = "Shop";
  type = rest_api;
  status = active;
  config_json = end;
  owner_id = "owner";
}

abbrev event_in : WebhookEventStatus → WebhookEvent ℕ
event_in status = record {
  id = "e1";
  source_connector_ref = "c1";
  connector_id = some "c1";
  idempotency_key = some "k1";
  event_type = "generic_event";
  status = status;
  payload_json = raw 3;
  headers_json = end;
  processed_at = none;
  error_message = none;
}

abbrev pub event : WebhookEvent ℕ
event = event_in received

abbrev pub shop_world : World ℕ
shop_world = record (world_of pipeline) { connectors = shop ∷ []; webhook_events = event ∷ [] }

abbrev broken_world : World ℕ
broken_world = record shop_world { webhook_events = event_in failed ∷ [] }

abbrev owner : Actor
owner = record { sub = "owner"; role = operator }

abbrev headers : Fields ℕ
headers = field "x-syncbridge-event-id" (str " k2 ") end

ended :
    HasDistinctIds
      (λ r. r.id)
      (process_webhook_event_now runtime at_once none "e1" shop_world).1.sync_runs
unfolding find process_webhook_event_now update put write walk read update_run update_pipeline
    create_run create_synced_record transform process_pipelines by_connector by_pipelines
    process_webhook_for_pipeline by_mapping settle_payload close_run settle_event update_event
    connector_of active_pipelines compile_mapping compile_candidate own
    transform_record_with_compiled_mapping transform_field get_by_path assert_safe_path
    is_missing_value coerce_value set_by_path
ended = (refl, (refl, tt))

process_webhook_event_now-EachRan_example :
    HandledBy runtime at_once none
      (λ ps s v. EachRan ps (no_runs runtime at_once none) shop_world.sync_runs s v.sync_runs)
      shop_world
      event
      (process_webhook_event_now runtime at_once none "e1" shop_world).0
      (process_webhook_event_now runtime at_once none "e1" shop_world).1
unfolding find
process_webhook_event_now-EachRan_example =
    process_webhook_event_now-EachRan runtime at_once none "e1" shop_world event refl ended

receive_event_twice_example :
    (e : WebhookEvent ℕ) × (find_delivery "c1" "k2"
        (receive_event runtime at_once "c1"
          (some (Json.obj (raw 3)))
          headers
          none
          shop_world).1.webhook_events
      ≡ some e)
    × (receive_event runtime at_once "c1" none headers
          (some owner)
          (receive_event runtime at_once "c1" (some (Json.obj (raw 3))) headers none shop_world).1
        ≡ (
          ok (duplicate_of e),
          (log "webhook_event_duplicate_ignored" "webhook_event" e.id
              (actor_id (some owner))
              (receive_event runtime at_once "c1"
                (some (Json.obj (raw 3)))
                headers
                none
                shop_world).1).1,
        ))
unfolding get_idempotency_key is_too_large trim
receive_event_twice_example =
    receive_event_twice runtime at_once "c1" "k2" (some (Json.obj (raw 3))) none headers headers
      none (some owner) shop_world refl refl refl refl

receive_event-IsDistinct_example : IsDistinct (
    identities
      (receive_event runtime at_once "c1" (some (Json.obj (raw 3))) headers none shop_world).1)
receive_event-IsDistinct_example =
    receive_event-IsDistinct runtime at_once "c1" (some (Json.obj (raw 3))) headers none shop_world
      (tt, tt)

retry_event-Guarded_example :
    Guarded runtime at_once "e1" owner broken_world is_failed true
      (retry_event runtime at_once "e1" owner broken_world)
retry_event-Guarded_example = retry_event-Guarded runtime at_once "e1" owner broken_world

abbrev told : WebhookResponse
told = record {
  event_id = "e1";
  status = processed;
  duplicate = false;
  job_id = none;
  message = "Webhook event processed.";
}

was_told : (answer_now runtime at_once "e1" none shop_world).0 ≡ ok told
unfolding answer_now process_webhook_event_now by_connector by_pipelines process_pipelines
    process_webhook_for_pipeline by_mapping settle_payload close_run settle_event find update
    connector_of active_pipelines update_event update_run update_pipeline create_run
    create_synced_record transform transform_record_with_compiled_mapping transform_field
    compile_mapping compile_candidate own put write get_by_path assert_safe_path is_missing_value
    walk read coerce_value set_by_path
was_told = refl

answer_now-Tells_example : Tells "e1" told (answer_now runtime at_once "e1" none shop_world).1
unfolding find
answer_now-Tells_example =
    answer_now-Tells runtime at_once none "e1" shop_world event refl told was_told

process_event-Guarded_example :
    Guarded runtime at_once "e1" owner shop_world
      (λ s. not (is_final s))
      false
      (process_event runtime at_once "e1" owner shop_world)
process_event-Guarded_example = process_event-Guarded runtime at_once "e1" owner shop_world

abbrev pub event_job : ProcessWebhookEventJobPayload
event_job = record {
  background_job_id = "j1";
  webhook_event_id = "e1";
  requested_by_user_id = some "owner";
  requested_by_role = some operator;
}

process_queued_webhook_event-Attempted_example :
    Attempted runtime at_once event_job 1 shop_world queued_job event
      (process_queued_webhook_event runtime at_once event_job 1 shop_world).0
      (process_queued_webhook_event runtime at_once event_job 1 shop_world).1
unfolding find
process_queued_webhook_event-Attempted_example =
    process_queued_webhook_event-Attempted runtime at_once event_job 1 shop_world queued_job event
      refl refl

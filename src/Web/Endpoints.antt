-- ===== src/Web/Endpoints.antt =====
-- apps/web/lib/api.ts: the methods of `api` that name a path and a body and leave the rest to `requestApi`.
use Prim.Native.String
use sync_bridge_platform.Base.{
  ℕ, zero, suc, String, Bool, true, false, Option, none, some, List, [], ◌∷◌, ◌++◌, or_else,
  if◌then◌else◌,
}
use sync_bridge_platform.Js.{Js, Json, str, obj, end, field}
use sync_bridge_platform.Listing.{ListQuery}
use sync_bridge_platform.Web.{Fetch, C}
use sync_bridge_platform.Web.Client.{RequestOptions, request_api}

-- The methods, with their arguments; the status in a query is a text. Payloads that are sent as they come are JSON; ids are texts.
pub data Endpoint (N : Type 0) : Type 0 where
  list_connectors : Endpoint N
  create_connector : Json N → Endpoint N
  update_connector_status : String → String → Endpoint N
  list_pipelines : Endpoint N
  get_pipeline : String → Endpoint N
  create_pipeline : Json N → Endpoint N
  update_pipeline_status : String → String → Endpoint N
  run_pipeline : String → Option (Json N) → Endpoint N
  preview_pipeline_transformation : String → Json N → Endpoint N
  validate_mapping : Json N → Endpoint N
  list_pipeline_runs : String → Endpoint N
  get_pipeline_schedule : String → Endpoint N
  update_pipeline_schedule : String → Json N → Endpoint N
  trigger_pipeline_schedule : String → Endpoint N
  get_scheduler_status : Endpoint N
  list_sync_runs : Option (ListQuery String) → Endpoint N
  get_job : String → Endpoint N
  get_sync_run_job : String → Endpoint N
  list_webhook_events : Option (ListQuery String) → Endpoint N
  get_webhook_event : String → Endpoint N
  get_webhook_event_job : String → Endpoint N
  retry_webhook_event : String → Endpoint N
  process_webhook_event : String → Endpoint N
  get_dashboard_summary : Endpoint N

-- `${before}${id}${behind}`
abbrev around : String → String → String → String
around before id behind = String.◌++◌ before (String.◌++◌ id behind)

module _ {N : Type 0} where
  abbrev get : String → RequestOptions N
  get path = record { method = "GET"; path = path; body = none; authenticated = true }

  abbrev send : String → String → Json N → RequestOptions N
  send method path body = record {
    method = method;
    path = path;
    body = some body;
    authenticated = true;
  }

  abbrev post_nothing : String → RequestOptions N
  post_nothing path = record { method = "POST"; path = path; body = none; authenticated = true }

-- How a number is written in a query.
module _ (show : ℕ → String) where
  -- `if (query?.page) search.set('page', String(query.page))`: nothing for 0.
  abbrev number : String → Option ℕ → List String
  number name none = []
  number name (some zero) = []
  number name (some (suc n)) = String.◌++◌ name (String.◌++◌ "=" (show (suc n))) ∷ []

  abbrev text : String → Option String → List String
  text name none = []
  text name (some String.[]) = []
  text name (some (String.◌∷◌ c s)) = String.◌++◌ name (String.◌++◌ "=" (String.◌∷◌ c s)) ∷ []

  -- `search.toString()`, of names and values that need no escape
  unfoldable pub join_parts : List String → String
  join_parts [] = ""
  join_parts (part ∷ []) = part
  join_parts (part ∷ next ∷ parts) = String.◌++◌ part (String.◌++◌ "&" (join_parts (next ∷ parts)))

  abbrev suffix : List String → String
  suffix [] = ""
  suffix (part ∷ parts) = String.◌++◌ "?" (join_parts (part ∷ parts))

  unfoldable pub query_suffix : (with_status : Bool) → Option (ListQuery String) → String
  unfolding join_parts
  query_suffix with_status none = ""
  query_suffix with_status (some q) = suffix (
      number "page" q.page
      ++ number "limit" q.limit
      ++ (if with_status then text "status" q.status else []))

  module _ {N : Type 0} where
    -- What a method asks `requestApi` for.
    unfoldable pub options_of : Endpoint N → RequestOptions N
    unfolding query_suffix
    options_of list_connectors = get "/connectors"
    options_of (create_connector payload) = send "POST" "/connectors" payload
    options_of (update_connector_status id status) =
        send "PATCH" (around "/connectors/" id "/status") (obj (field "status" (str status) end))
    options_of list_pipelines = get "/pipelines"
    options_of (get_pipeline id) = get (around "/pipelines/" id "")
    options_of (create_pipeline payload) = send "POST" "/pipelines" payload
    options_of (update_pipeline_status id status) =
        send "PATCH" (around "/pipelines/" id "/status") (obj (field "status" (str status) end))
    options_of (run_pipeline id payload) =
        send "POST" (around "/pipelines/" id "/runs") (or_else payload (obj end))
    options_of (preview_pipeline_transformation id payload) =
        send "POST" (around "/pipelines/" id "/preview") payload
    options_of (validate_mapping mapping_json) =
        send "POST" "/pipelines/validate-mapping" (obj (field "mappingJson" mapping_json end))
    options_of (list_pipeline_runs id) = get (around "/pipelines/" id "/runs")
    options_of (get_pipeline_schedule id) = get (around "/pipelines/" id "/schedule")
    options_of (update_pipeline_schedule id payload) =
        send "PATCH" (around "/pipelines/" id "/schedule") payload
    options_of (trigger_pipeline_schedule id) =
        post_nothing (around "/pipelines/" id "/schedule/trigger")
    options_of get_scheduler_status = get "/scheduler/status"
    options_of (list_sync_runs query) = get (String.◌++◌ "/sync-runs" (query_suffix true query))
    options_of (get_job id) = get (around "/jobs/" id "")
    options_of (get_sync_run_job id) = get (around "/sync-runs/" id "/job")
    options_of (list_webhook_events query) =
        get (String.◌++◌ "/webhooks/events" (query_suffix false query))
    options_of (get_webhook_event id) = get (around "/webhooks/events/" id "")
    options_of (get_webhook_event_job id) = get (around "/webhooks/events/" id "/job")
    options_of (retry_webhook_event id) = post_nothing (around "/webhooks/events/" id "/retry")
    options_of (process_webhook_event id) = post_nothing (around "/webhooks/events/" id "/process")
    options_of get_dashboard_summary = get "/dashboard/summary"

module _ (js : Js) (show : ℕ → String) {S : Type 0} (fetch : Fetch S js.Num) where
  unfoldable pub call : Endpoint js.Num → C S js.Num (Json js.Num)
  unfolding options_of request_api
  call endpoint = request_api js show fetch (options_of show endpoint)

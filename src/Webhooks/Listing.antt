-- ===== src/Webhooks/Listing.antt =====
-- apps/api/src/webhooks/webhooks.service.ts: `listEvents` and `getEventById`.
use sync_bridge_platform.Base.{
  ℕ, Bool, true, ◌&&◌, Option, none, some, String, map, keep, or_else, nat_eq, if◌then◌else◌,
}
use sync_bridge_platform.Database.{
  received, processed, failed, ignored, WebhookEvent, WebhookEventStatus, World,
}
use sync_bridge_platform.Js.{Js}
use sync_bridge_platform.Effects.{M, pure, ◌>>=◌}
use sync_bridge_platform.Listing.{ListQuery, PaginatedResponse, page_of}
use sync_bridge_platform.SyncRuns.Tables.{Actor}
use sync_bridge_platform.SyncRuns.Execute.{is_privileged}
use sync_bridge_platform.Webhooks.Tables.{connector_of}
use sync_bridge_platform.Webhooks.Request.{redact_headers}
use sync_bridge_platform.Webhooks.Handlers.{owned_by, owner_of, get_accessible_event}

abbrev rank : WebhookEventStatus → ℕ
rank received = 0
rank processed = 1
rank failed = 2
rank ignored = 3

module _ {N : Type 0} where
  abbrev pub has_status : Option WebhookEventStatus → WebhookEvent N → Bool
  has_status none e = true
  has_status (some status) e = nat_eq (rank e.status) (rank status)

  -- `{ connector: { ownerId: user.sub } }`, for events whose connector is a row of the table.
  abbrev pub is_owned : Actor → World N → WebhookEvent N → Bool
  is_owned caller w e = owned_by (owner_of (connector_of e.connector_id w.connectors)) caller.sub

module _ (js : Js) where
  -- `serializeEvent`, which redacts the headers again.
  unfoldable pub serialize_event : WebhookEvent js.Num → WebhookEvent js.Num
  serialize_event e = record e { headers_json = redact_headers js e.headers_json }

  unfoldable pub list_events :
      ListQuery WebhookEventStatus → Actor → World js.Num → PaginatedResponse (WebhookEvent js.Num)
  list_events query caller w =
      let found = page_of (or_else query.page 1) (or_else query.limit 20) (
        keep
          (λ e.
            if is_privileged caller.role
            then has_status query.status e
            else has_status query.status e && is_owned caller w e)
          w.webhook_events) in
      record found { items = map serialize_event found.items }

  unfoldable pub get_event_by_id : String → Actor → M js.Num (WebhookEvent js.Num)
  get_event_by_id id caller = do
    event ← get_accessible_event id caller
    pure (serialize_event event)

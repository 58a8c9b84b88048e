-- ===== src/Webhooks/Tables.antt =====
-- The calls of the database client in apps/api/src/webhooks/webhooks.service.ts, each on its table.
use sync_bridge_platform.Base.{
  suc, String, Bool, true, false, ◌&&◌, Option, none, some, List, [], ◌∷◌, ◌++◌, ◌==◌, keep, ok,
  err, is_empty, if◌then◌else◌,
}
use sync_bridge_platform.Database.{
  active, Connector, WebhookEvent, SyncPipeline, PipelineStatus, find, update,
}
use sync_bridge_platform.Effects.{plain, Env, M}

abbrev pub is_active_status : PipelineStatus → Bool
is_active_status active = true
is_active_status _ = false

abbrev pub has_key : Option String → String → Bool
has_key none key = false
has_key (some k) key = k == key

module _ {N : Type 0} where
  abbrev pub find_event : String → List (WebhookEvent N) → Option (WebhookEvent N)
  find_event = find (λ e. e.id)

  abbrev pub find_connector : String → List (Connector N) → Option (Connector N)
  find_connector = find (λ c. c.id)

  abbrev pub is_delivery : String → String → WebhookEvent N → Bool
  is_delivery ref key e = e.source_connector_ref == ref && has_key e.idempotency_key key

  -- `findFirst({ where: { sourceConnectorRef, idempotencyKey } })`
  unfoldable pub find_delivery : String → String → List (WebhookEvent N) → Option (WebhookEvent N)
  find_delivery ref key [] = none
  find_delivery ref key (e ∷ events) =
      if is_delivery ref key e then some e else find_delivery ref key events

  abbrev connector_with : String → List (Connector N) → Option (Connector N)
  connector_with id connectors = if is_empty id then none else find_connector id connectors

  -- `event.connectorId ? await findUnique(...) : null`
  unfoldable pub connector_of : Option String → List (Connector N) → Option (Connector N)
  connector_of none connectors = none
  connector_of (some id) connectors = connector_with id connectors

  -- `findMany({ where: { sourceConnectorId, status: ACTIVE }, orderBy: { createdAt: 'asc' } })`
  unfoldable pub active_pipelines : String → List (SyncPipeline N) → List (SyncPipeline N)
  active_pipelines connector_id =
      keep (λ p. p.source_connector_id == connector_id && is_active_status p.status)

  unfoldable pub update_event : String → (WebhookEvent N → WebhookEvent N) → M N (WebhookEvent N)
  update_event id change w = elim (find_event id w.webhook_events) [
    | none ↦ (err (plain "Webhook event not found"), w)
    | some e ↦
        (ok (change e), record w { webhook_events = update (λ q. q.id) id change w.webhook_events })
  ]

  unfoldable pub create_event : Env → (String → WebhookEvent N) → M N (WebhookEvent N)
  create_event env row w =
      let made = row (env.uuid w.ticks) in
      (ok made, record w { webhook_events = w.webhook_events ++ made ∷ []; ticks = suc w.ticks })

-- ===== src/Webhooks/Process/Identity.antt =====
-- apps/api/src/webhooks/webhooks.service.ts: what makes an event recognisable, which its processing
-- leaves alone.
use sync_bridge_platform.Base.{
  String, Option, some, List, [], ◌∷◌, map, ◌==◌, ◌&&◌, ◌≡◌, refl, ◌∙◌, ap, inl, inr, arith,
  Bool-cases,
}
use sync_bridge_platform.Js.{Js}
use sync_bridge_platform.Database.{processed, WebhookEventStatus, WebhookEvent, World, update}
use sync_bridge_platform.Effects.{Env, draw}
use sync_bridge_platform.Effects.Frame.{Frame, Keeps, Keeps-continue}
use sync_bridge_platform.SyncRuns.Tables.{Actor}
use sync_bridge_platform.Webhooks.Tables.{update_event, find_delivery, is_delivery, has_key}
use sync_bridge_platform.Webhooks.Process.{
  summary_with, settled_event, settle_event, or_own_id, process_webhook_event_now,
}
use sync_bridge_platform.Webhooks.Process.Steps.{process_webhook_event_now-Keeps}
use sync_bridge_platform.Webhooks.Process.Runs.{process_pipelines-Unharmed}

-- The id of an event, the connector that sent it, and the key of the delivery.
pub record Identity : Type 0 where
  pub id : String
  pub ref : String
  pub key : Option String

abbrev pub identity : {N : Type 0} → WebhookEvent N → Identity
identity e = record { id = e.id; ref = e.source_connector_ref; key = e.idempotency_key }

abbrev pub identities : {N : Type 0} → World N → List Identity
identities w = map identity w.webhook_events

-- The same events, each with its id and key.
abbrev pub recognisable : {N : Type 0} → Frame N
recognisable = record {
  Rel = λ v w. identities w ≡ identities v;
  self = λ w. refl;
  trans = λ a b. b ∙ a;
}

∷-injective : {A : Type 0} {x y : A} {xs ys : List A} → x ∷ xs ≡ y ∷ ys → (x ≡ y) × (xs ≡ ys)
∷-injective same = (cc, cc)

module _ {N : Type 0} where
  update-identity :
      (id : String) (change : WebhookEvent N → WebhookEvent N) (events : List (WebhookEvent N))
      → ((e : WebhookEvent N) → identity (change e) ≡ identity e)
      → map identity (update (λ e. e.id) id change events) ≡ map identity events
  unfolding update
  update-identity id change [] keeps = refl
  update-identity id change (e ∷ events) keeps = elim (Bool-cases (e.id == id)) [
    | inl this ↦ rw (this, update) (ap (λ x. x ∷ map identity events) (keeps e))
    | inr other ↦
        rw (other, update) (ap (λ xs. identity e ∷ xs) (update-identity id change events keeps))
  ]

  pub update_event-identity :
      (id : String) (change : WebhookEvent N → WebhookEvent N)
      → ((e : WebhookEvent N) → identity (change e) ≡ identity e)
      → Keeps recognisable (update_event id change)
  unfolding update_event
  update_event-identity id change keeps w =
      ground (arith, update-identity id change w.webhook_events keeps)

  -- The search for a delivery sees only the identities.
  pub find_delivery-identity :
      (ref key : String) (events others : List (WebhookEvent N)) (e : WebhookEvent N)
      → map identity others ≡ map identity events
      → find_delivery ref key events ≡ some e
      → (f : WebhookEvent N) × (find_delivery ref key others ≡ some f) × (f.id ≡ e.id)
  unfolding find_delivery
  find_delivery-identity ref key [] others e same found = absurd (ground arith)
  find_delivery-identity ref key (x ∷ events) [] e same found = absurd (cc)
  find_delivery-identity ref key (x ∷ events) (y ∷ others) e same found =
      let (first, rest) = ∷-injective same in
      let alike : is_delivery ref key y ≡ is_delivery ref key x =
        ap (λ (i : Identity). i.ref == ref && has_key i.key key) first in
      elim (Bool-cases (is_delivery ref key x)) [
        | inl this ↦ (y, ground (arith, alike), ground (arith, ap (λ (i : Identity). i.id) first))
        | inr other ↦
            let (f, found', named) =
              find_delivery-identity ref key events others e rest (ground arith) in
            (f, ground (arith, alike), named)
      ]

module _ (js : Js) (env : Env) (actor : Option Actor) where
  settle_event-identity :
      (id : String) (status : WebhookEventStatus) (message : Option String) (action : String)
      → Keeps recognisable (settle_event js env actor id status message action)
  unfolding settle_event
  settle_event-identity id status message action w =
      let v = (draw env.clock w).1 in
      let change = settled_event status message (env.clock w.ticks) in
      Keeps-continue recognisable (update_event id change v).0 _ {w = v}
        (update_event-identity id change (λ e. refl) v) (λ e. refl)

  pub process_webhook_event_now-identity :
      (id : String) → Keeps recognisable (process_webhook_event_now js env actor id)
  process_webhook_event_now-identity =
      process_webhook_event_now-Keeps js env actor recognisable
        (λ e ps w.
          ap (map identity)
            (process_pipelines-Unharmed js env actor e.payload_json
              (or_own_id e.idempotency_key e.id) (summary_with processed "Webhook event processed.")
              ps w).webhook_events)
        settle_event-identity

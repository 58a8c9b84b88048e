-- ===== src/Webhooks/Handlers/Delivery.antt =====
-- apps/api/src/webhooks/webhooks.service.ts: `receiveEvent` and a delivery that comes again.
use mathlib.Core.Path.{subst}
use mathlib.Core.List.{map-append}
use sync_bridge_platform.Base.{
  String, Bool, true, false, Option, none, some, [], ◌∷◌, ◌++◌, map, ◌≡◌, refl, sym, ◌∙◌, inl, inr,
  arith, ok, All, Option-cases, if◌then◌else◌,
}
use sync_bridge_platform.Js.{Js, Json, Fields}
use sync_bridge_platform.Database.{WebhookEvent, World}
use sync_bridge_platform.Effects.{payload_too_large, Env, gets, throw_if, log, ◌>>=◌, ◌>>◌}
use sync_bridge_platform.Effects.Frame.{Keeps, Keeps-continue}
use sync_bridge_platform.SyncRuns.Tables.{Actor, actor_id, create_job}
use sync_bridge_platform.SyncRuns.Execute.{enqueue_job}
use sync_bridge_platform.Webhooks.Request.{sanitize_payload, get_idempotency_key, is_too_large}
use sync_bridge_platform.Webhooks.Tables.{find_connector, find_delivery, create_event}
use sync_bridge_platform.Webhooks.Process.{process_webhook_event_now}
use sync_bridge_platform.Webhooks.Process.Identity.{
  identity, identities, recognisable, process_webhook_event_now-identity, find_delivery-identity,
}
use sync_bridge_platform.Webhooks.Handlers.{
  duplicate_of, enqueue_process_webhook_event_job, new_event, answer_now, answer_later, by_mode,
  accept_event, earlier_delivery, unless_delivered, receive_event,
}
use sync_bridge_platform.Webhooks.Handlers.Distinct.{
  Apart, IsDistinct, append-IsDistinct, keyless-Apart, find_delivery-append, find_delivery_self,
  find_delivery-Apart,
}

module _ (js : Js) (env : Env) where
  answer_later-identity :
      (id : String) (actor : Option Actor) (action message : String)
      → Keeps recognisable (answer_later js env id actor action message)
  unfolding answer_later create_job enqueue_process_webhook_event_job enqueue_job
  answer_later-identity id actor action message w = ground arith

  answer_now-identity :
      (id : String) (actor : Option Actor) → Keeps recognisable (answer_now js env id actor)
  unfolding answer_now
  answer_now-identity id actor w =
      let m = process_webhook_event_now js env actor id w in
      Keeps-continue recognisable m.0 _ {w = w}
        (process_webhook_event_now-identity js env actor id w) (λ s. refl)

  pub by_mode-identity :
      (id : String) (actor : Option Actor) (action message : String)
      → Keeps recognisable (by_mode js env id actor action message)
  by_mode-identity id actor action message w = in_mode env.is_async_mode
    where
      in_mode :
          (async : Bool)
          → identities
              ((if async
                  then answer_later js env id actor action message
                  else answer_now js env id actor)
                w).1
            ≡ identities w
      in_mode true = answer_later-identity id actor action message w
      in_mode false = answer_now-identity id actor w

  -- The event that a call adds at `w`.
  abbrev made :
      String → Option String → Fields js.Num → Fields js.Num → World js.Num → WebhookEvent js.Num
  made ref key payload headers w =
      new_event js env ref (find_connector ref w.connectors) key payload headers (env.uuid w.ticks)

  accept_event-identity :
      (ref : String) (key : Option String) (payload headers : Fields js.Num) (actor : Option Actor)
      (w : World js.Num)
      → identities (accept_event js env ref key payload headers actor w).1
        ≡ map identity (w.webhook_events ++ made ref key payload headers w ∷ [])
  unfolding accept_event create_event
  accept_event-identity ref key payload headers actor w =
      by_mode-identity (env.uuid w.ticks) actor "webhook_event_processing_queued"
        "Webhook event queued for processing." _

  accept_event-IsDistinct :
      (ref : String) (key : Option String) (payload headers : Fields js.Num) (actor : Option Actor)
      (w : World js.Num)
      → All (λ i. Apart i (identity (made ref key payload headers w))) (identities w)
      → IsDistinct (identities w)
      → IsDistinct (identities (accept_event js env ref key payload headers actor w).1)
  accept_event-IsDistinct ref key payload headers actor w apart distinct =
      subst IsDistinct
        (sym (
          accept_event-identity ref key payload headers actor w
          ∙ map-append identity w.webhook_events _))
        (append-IsDistinct _ (identities w) apart distinct)

  module _ (ref key : String) (body : Option (Json js.Num)) (headers : Fields js.Num)
      (actor : Option Actor) where
    receive_event_again :
        (w : World js.Num) (e : WebhookEvent js.Num)
        → get_idempotency_key js headers ≡ some key
        → is_too_large js (sanitize_payload body) ≡ false
        → find_delivery ref key w.webhook_events ≡ some e
        → receive_event js env ref body headers actor w ≡ (
          ok (duplicate_of e),
          (log "webhook_event_duplicate_ignored" "webhook_event" e.id (actor_id actor) w).1,
        )
    unfolding receive_event unless_delivered
    receive_event_again w e keyed small at = ground (arith, keyed, small, at)

    receive_event_anew :
        (w : World js.Num)
        → get_idempotency_key js headers ≡ some key
        → is_too_large js (sanitize_payload body) ≡ false
        → find_delivery ref key w.webhook_events ≡ none
        → receive_event js env ref body headers actor w
          ≡ accept_event js env ref (some key) (sanitize_payload body) headers actor w
    unfolding receive_event unless_delivered
    receive_event_anew w keyed small missing =
        rw (keyed, small, missing, receive_event, unless_delivered) refl

    -- The delivery that a call is about is in the table behind it, however the call ended.
    receive_event_recorded :
        (w : World js.Num)
        → get_idempotency_key js headers ≡ some key
        → is_too_large js (sanitize_payload body) ≡ false
        → (e : WebhookEvent js.Num) × (find_delivery ref key
              (receive_event js env ref body headers actor w).1.webhook_events
            ≡ some e)
    receive_event_recorded w keyed small =
        elim (Option-cases (find_delivery ref key w.webhook_events)) [
          | inr (e, at) ↦ (e, rw (receive_event_again w e keyed small at) at)
          | inl missing ↦
              let event = made ref (some key) (sanitize_payload body) headers w in
              let (e, at, named) =
                find_delivery-identity ref key (w.webhook_events ++ event ∷ [])
                  (accept_event js env ref (some key) (sanitize_payload body) headers actor
                    w).1.webhook_events
                  event
                  (accept_event-identity ref (some key) (sanitize_payload body) headers actor w)
                  (find_delivery-append ref key w.webhook_events (event ∷ []) missing
                    ∙ find_delivery_self ref key event refl refl) in
              (e, rw (receive_event_anew w keyed small missing) at)
        ]

  -- A delivery with a key, of a payload of the allowed size, is accepted once: whether the first call for it
  -- returned or threw, the next call with the same connector and key answers with an event that is in the
  -- table already, and writes only an entry of the audit log. There is no second event, job or run.
  pub receive_event_twice :
      (ref key : String) (body body' : Option (Json js.Num)) (headers headers' : Fields js.Num)
      (actor actor' : Option Actor) (w : World js.Num)
      → get_idempotency_key js headers ≡ some key
      → get_idempotency_key js headers' ≡ some key
      → is_too_large js (sanitize_payload body) ≡ false
      → is_too_large js (sanitize_payload body') ≡ false
      → let v = (receive_event js env ref body headers actor w).1 in
        (e : WebhookEvent js.Num) × (find_delivery ref key v.webhook_events ≡ some e)
        × (receive_event js env ref body' headers' actor' v ≡ (
          ok (duplicate_of e),
          (log "webhook_event_duplicate_ignored" "webhook_event" e.id (actor_id actor') v).1,
        ))
  receive_event_twice ref key body body' headers headers' actor actor' w keyed keyed' small small' =
      let (e, at) = receive_event_recorded ref key body headers actor w keyed small in
      (e, at, receive_event_again ref key body' headers' actor' _ e keyed' small' at)

  -- Whatever a call brings and however it ends, the events that carry a key stay distinct deliveries.
  pub receive_event-IsDistinct :
      (ref : String) (body : Option (Json js.Num)) (headers : Fields js.Num) (actor : Option Actor)
      (w : World js.Num)
      → IsDistinct (identities w)
      → IsDistinct (identities (receive_event js env ref body headers actor w).1)
  unfolding receive_event unless_delivered
  receive_event-IsDistinct ref body headers actor w distinct =
      by_size (is_too_large js (sanitize_payload body))
    where
      payload : Fields js.Num
      payload = sanitize_payload body

      by_search :
          (key : String) (o : Option (WebhookEvent js.Num))
          → find_delivery ref key w.webhook_events ≡ o
          → IsDistinct (
              identities
                (unless_delivered js env o actor
                  (accept_event js env ref (some key) payload headers actor)
                  w).1)
      by_search key (some e) at = distinct
      by_search key none missing =
          accept_event-IsDistinct ref (some key) payload headers actor w
            (find_delivery-Apart ref key (identity (made ref (some key) payload headers w))
              w.webhook_events refl refl missing)
            distinct

      by_key :
          (key : Option String)
          → IsDistinct (
              identities
                (unless_delivered js env
                  (earlier_delivery js env ref key w.webhook_events)
                  actor
                  (accept_event js env ref key payload headers actor)
                  w).1)
      by_key none =
          accept_event-IsDistinct ref none payload headers actor w
            (keyless-Apart (identity (made ref none payload headers w)) (identities w) refl)
            distinct
      by_key (some key) = by_search key (find_delivery ref key w.webhook_events) refl

      by_size :
          (big : Bool)
          → IsDistinct (
              identities
                ((throw_if big (payload_too_large "Webhook payload exceeds allowed size")
                    >> (gets (λ v.
                          earlier_delivery js env ref
                            (get_idempotency_key js headers)
                            v.webhook_events)
                        >>= λ earlier. unless_delivered js env earlier actor (
                            accept_event js env ref
                              (get_idempotency_key js headers)
                              payload
                              headers
                              actor)))
                  w).1)
      by_size true = distinct
      by_size false = by_key (get_idempotency_key js headers)

-- ===== src/Webhooks/Handlers/Answer.antt =====
-- apps/api/src/webhooks/webhooks.service.ts: what the caller is told of an event that was processed at once.
use mathlib.Core.Path.{subst}
use sync_bridge_platform.Base.{
  ℕ, String, false, Option, none, some, ◌≡◌, sym, ap, ◌∙◌, ◌≢◌, arith, Result, ok, ok-injective,
}
use sync_bridge_platform.Js.{Js}
use sync_bridge_platform.Database.{
  received, processed, failed, ignored, WebhookEventStatus, WebhookEvent, World,
}
use sync_bridge_platform.Database.Laws.{find-id}
use sync_bridge_platform.Effects.{Error, Env, M, pure, gets, continue, ◌>>=◌}
use sync_bridge_platform.Effects.Frame.{Returns}
use sync_bridge_platform.SyncRuns.Tables.{Actor}
use sync_bridge_platform.Webhooks.Tables.{find_event}
use sync_bridge_platform.Webhooks.Process.{
  WebhookProcessingSummary, settled_event, process_webhook_event_now,
}
use sync_bridge_platform.Webhooks.Process.Handled.{
  Handled, unconnected, idle, ran, interrupted, process_webhook_event_now-Handled,
}
use sync_bridge_platform.Webhooks.Handlers.{WebhookResponse, status_or, answer_now}

-- The answer names the status that the event has in the table, which is a final one or FAILED.
abbrev pub Tells : {N : Type 0} → String → WebhookResponse → World N → Type 0
Tells id r w =
    (e : WebhookEvent _) × (find_event id w.webhook_events ≡ some e)
    × (e.status ≡ r.status)
    × (r.status ≢ received)

module _ (js : Js) (env : Env) (actor : Option Actor) where
  answer : String → WebhookProcessingSummary → M js.Num WebhookResponse
  answer id s = gets (λ w. find_event id w.webhook_events) >>= λ updated. pure (record {
    event_id = id;
    status = status_or updated s.status;
    duplicate = false;
    job_id = none;
    message = s.message;
  })

  answer-Tells :
      (e : WebhookEvent js.Num) (status : WebhookEventStatus) (message : Option String) (t : ℕ)
      (s : WebhookProcessingSummary) (v : World js.Num)
      → find_event e.id v.webhook_events ≡ some (settled_event status message t e)
      → status ≢ received
      → Returns (Tells e.id) (answer e.id s v)
  unfolding answer
  answer-Tells e status message t s v at other a same =
      let told : a.status ≡ status =
        ap (λ (r : WebhookResponse). r.status) (sym (ok-injective same))
        ∙ ap (λ o. status_or o s.status) at in
      (settled_event status message t e, at, sym told, λ back. other (sym told ∙ back))

  continue-Tells :
      (w : World js.Num) (e : WebhookEvent js.Num) (r : Result Error WebhookProcessingSummary)
      (v : World js.Num)
      → Handled js env actor w e r v
      → Returns (Tells e.id) (continue r (answer e.id) v)
  continue-Tells w e _ _ (unconnected v link s) =
      answer-Tells e failed _ s.event.0 _ v s.event.1 (λ h. ground arith)
  continue-Tells w e _ _ (idle c v link none_active s) =
      answer-Tells e ignored none s.event.0 _ v s.event.1 (λ h. ground arith)
  continue-Tells w e _ _ (ran c s u v link runs after) =
      answer-Tells e processed none after.event.0 s v after.event.1 (λ h. ground arith)
  continue-Tells w e _ _ (interrupted c x v link threw still) = λ a same. absurd (ground arith)

  -- An event in the table that is processed at once: if the call returns, its answer tells the status that
  -- the event has in the table by then, and that status is not RECEIVED.
  pub answer_now-Tells :
      (id : String) (w : World js.Num) (e : WebhookEvent js.Num)
      → find_event id w.webhook_events ≡ some e
      → (r : WebhookResponse) → (answer_now js env id actor w).0 ≡ ok r
      → Tells id r (answer_now js env id actor w).1
  unfolding answer_now answer
  answer_now-Tells id w e at =
      let named = find-id (λ (x : WebhookEvent js.Num). x.id) id w.webhook_events e at in
      let m = process_webhook_event_now js env actor id w in
      subst (λ (x : String). Returns (Tells x) (continue m.0 (answer x) m.1)) named
        (continue-Tells w e m.0 m.1 (process_webhook_event_now-Handled js env actor id w e at))

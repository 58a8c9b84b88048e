-- ===== src/Webhooks/Handlers/Access.antt =====
-- apps/api/src/webhooks/webhooks.service.ts: who may see, retry or process an event, and when.
use sync_bridge_platform.Base.{
  String, Bool, true, false, not, ◌&&◌, ◌||◌, some, ◌≡◌, inl, inr, arith, Result, ok, Option-cases,
  Bool-cases,
}
use sync_bridge_platform.Js.{Js}
use sync_bridge_platform.Database.{WebhookEventStatus, WebhookEvent, World}
use sync_bridge_platform.Effects.{Error, Env}
use sync_bridge_platform.SyncRuns.Tables.{Actor}
use sync_bridge_platform.SyncRuns.Execute.{is_privileged}
use sync_bridge_platform.Webhooks.Tables.{find_event, connector_of}
use sync_bridge_platform.Webhooks.Handlers.{
  WebhookResponse, owner_of, owned_by, is_failed, is_final, get_accessible_event,
  queue_or_process_event, retry_event, process_event,
}

module _ {N : Type 0} where
  -- `is_privileged` or the owner of the event's connector
  abbrev pub may_access : Actor → WebhookEvent N → World N → Bool
  may_access caller e w =
      is_privileged caller.role
      || owned_by (owner_of (connector_of e.connector_id w.connectors)) caller.sub

module _ (js : Js) (env : Env) where
  -- How a guarded handler ends at `w`: as the step behind the guard, on an event that the caller may access and
  -- whose status passes the test, or with an error and nothing written.
  pub data Guarded (id : String) (caller : Actor) (w : World js.Num)
      (test : WebhookEventStatus → Bool) (is_retry : Bool)
      (m : Result Error WebhookResponse × World js.Num) : Type 0 where
    admitted :
        (e : WebhookEvent js.Num)
        → find_event id w.webhook_events ≡ some e
        → may_access caller e w ≡ true
        → test e.status ≡ true
        → m ≡ queue_or_process_event js env e.id caller is_retry w
        → Guarded id caller w test is_retry m
    refused :
        ((e : WebhookEvent js.Num)
          → find_event id w.webhook_events ≡ some e
          → may_access caller e w && test e.status ≡ false)
        → m.1 ≡ w
        → ((r : WebhookResponse) → m.0 ≡ ok r → ⊥)
        → Guarded id caller w test is_retry m

  module _ (id : String) (caller : Actor) (w : World js.Num) where
    -- `retryEvent` goes on exactly for a FAILED event whose connector the caller owns, or with a privileged
    -- role for any FAILED event. On all other calls it throws and writes nothing.
    pub retry_event-Guarded : Guarded id caller w is_failed true (retry_event js env id caller w)
    unfolding retry_event get_accessible_event
    retry_event-Guarded = elim (Option-cases (find_event id w.webhook_events)) [
      | inl missing ↦
          refused (λ e at. absurd (ground arith)) (ground (arith, missing))
            (λ r got. ground (arith, missing))
      | inr (e, at) ↦ elim (Bool-cases (may_access caller e w)) [
        | inr not_his ↦
            refused (λ f at'. ground arith) (ground (arith, at, not_his))
              (λ r got. ground (arith, at, not_his))
        | inl may ↦ elim (Bool-cases (is_failed e.status)) [
          | inr other ↦
              refused (λ f at'. ground arith) (ground (arith, at, may, other))
                (λ r got. ground (arith, at, may, other))
          | inl test ↦ admitted e at may test (ground (arith, at, may, test))
        ]
      ]
    ]

    -- `processEvent` goes on exactly for an event that is neither PROCESSED nor IGNORED and whose connector the
    -- caller owns, or with a privileged role for any such event. On all other calls it throws and writes
    -- nothing.
    pub process_event-Guarded :
        Guarded id caller w (λ s. not (is_final s)) false (process_event js env id caller w)
    unfolding process_event get_accessible_event
    process_event-Guarded = elim (Option-cases (find_event id w.webhook_events)) [
      | inl missing ↦
          refused (λ e at. absurd (ground arith)) (ground (arith, missing))
            (λ r got. ground (arith, missing))
      | inr (e, at) ↦ elim (Bool-cases (may_access caller e w)) [
        | inr not_his ↦
            refused (λ f at'. ground arith) (ground (arith, at, not_his))
              (λ r got. ground (arith, at, not_his))
        | inl may ↦ elim (Bool-cases (is_final e.status)) [
          | inl final ↦
              refused (λ f at'. ground arith) (ground (arith, at, may, final))
                (λ r got. ground (arith, at, may, final))
          | inr open_still ↦
              admitted e at may (ground (arith, open_still)) (ground (arith, at, may, open_still))
        ]
      ]
    ]

-- ===== src/Webhooks/Process/Handled.antt =====
-- apps/api/src/webhooks/webhooks.service.ts: `processWebhookEventNow` on every branch.
use mathlib.Core.Path.{subst}
use sync_bridge_platform.Base.{
  ℕ, String, Option, none, some, List, [], ◌∷◌, ◌≡◌, refl, sym, ◌∙◌, ap, arith, Result, ok, err,
}
use sync_bridge_platform.Js.{Js}
use sync_bridge_platform.Database.{
  processed, failed, ignored, WebhookEventStatus, SyncPipeline, SyncRun, WebhookEvent, Connector,
  World,
}
use sync_bridge_platform.Database.Laws.{find-update_self, find-id, HasDistinctIds}
use sync_bridge_platform.Effects.{Error, Env, M, pure, continue, ◌>>◌}
use sync_bridge_platform.SyncRuns.Tables.{Actor}
use sync_bridge_platform.Webhooks.Tables.{find_event, connector_of, active_pipelines, update_event}
use sync_bridge_platform.Webhooks.Process.{
  WebhookProcessingSummary, summary_with, settled_event, settle_event, or_own_id, process_pipelines,
  by_pipelines, by_connector, process_webhook_event_now,
}
use sync_bridge_platform.Webhooks.Process.Runs.{process_pipelines-Unharmed}
use sync_bridge_platform.Webhooks.Process.Trail.{Trail, process_pipelines-Trail}
use sync_bridge_platform.Webhooks.Process.Each.{EachRan, Trail-EachRan}
use sync_bridge_platform.Webhooks.Process.Outcome.{Processed, process_pipelines-Processed}

module _ (js : Js) (env : Env) (actor : Option Actor) where
  -- The row of an event after its processing, with what else the settling left alone.
  pub record Settled (e : WebhookEvent js.Num) (status : WebhookEventStatus)
      (message : Option String) (v w : World js.Num) : Type 0 where
    pub event :
        (t : ℕ) × (find_event e.id w.webhook_events ≡ some (settled_event status message t e))
    pub runs : w.sync_runs ≡ v.sync_runs

  settle_event-Settled :
      (e : WebhookEvent js.Num) (status : WebhookEventStatus) (message : Option String)
      (action : String) (w : World js.Num)
      → find_event e.id w.webhook_events ≡ some e
      → let m = settle_event js env actor e.id status message action w in
        (m.0 ≡ ok tt) × Settled e status message w m.1
  unfolding settle_event update_event
  settle_event-Settled e status message action w at =
      let t = env.clock w.ticks in
      let found =
        find-update_self (λ (x : WebhookEvent js.Num). x.id) e.id (settled_event status message t)
          w.webhook_events e (λ x. refl) at in
      (
        ground (arith, at),
        record { event = (t, ground (arith, at, found)); runs = ground (arith, at) },
      )

  settle_event-pure :
      (e : WebhookEvent js.Num) (status : WebhookEventStatus) (message : Option String)
      (action : String) (s : WebhookProcessingSummary) (w : World js.Num)
      → find_event e.id w.webhook_events ≡ some e
      → ◌≡◌ {A = Result Error WebhookProcessingSummary × World js.Num}
          (ok s, (settle_event js env actor e.id status message action w).1)
          ((settle_event js env actor e.id status message action >> pure s) w)
  settle_event-pure e status message action s w at =
      let (returned, after) = settle_event-Settled e status message action w at in
      ground (arith, returned)

  abbrev pub run_all :
      WebhookEvent js.Num → List (SyncPipeline js.Num) → M js.Num WebhookProcessingSummary
  run_all e ps =
      process_pipelines js env actor e.payload_json (or_own_id e.idempotency_key e.id)
        (summary_with processed "Webhook event processed.") ps

  -- How the processing of the event `e` ends: what it returns or throws, and the tables. `Ran` is said
  -- of the active pipelines, of the summary of their runs and of the tables behind them.
  pub data HandledBy
      (Ran : List (SyncPipeline js.Num) → WebhookProcessingSummary → World js.Num → Type 0)
      (w : World js.Num) (e : WebhookEvent js.Num)
      : Result Error WebhookProcessingSummary → World js.Num → Type 0 where
    unconnected :
        (w' : World js.Num)
        → connector_of e.connector_id w.connectors ≡ none
        → Settled e failed (some "Connector not found for webhook event") w w'
        → HandledBy Ran w e
            (ok (summary_with failed "Webhook event failed: connector not found."))
            w'
    idle :
        (c : Connector js.Num) (w' : World js.Num)
        → connector_of e.connector_id w.connectors ≡ some c
        → active_pipelines c.id w.pipelines ≡ []
        → Settled e ignored none w w'
        → HandledBy Ran w e
            (ok (summary_with ignored "Webhook event ignored: no active pipelines for connector."))
            w'
    ran :
        (c : Connector js.Num) (s : WebhookProcessingSummary) (v w' : World js.Num)
        → connector_of e.connector_id w.connectors ≡ some c
        → Ran (active_pipelines c.id w.pipelines) s v
        → Settled e processed none v w'
        → HandledBy Ran w e (ok s) w'
    interrupted :
        (c : Connector js.Num) (x : Error) (w' : World js.Num)
        → connector_of e.connector_id w.connectors ≡ some c
        → (run_all e (active_pipelines c.id w.pipelines) w).0 ≡ err x
        → find_event e.id w'.webhook_events ≡ some e
        → HandledBy Ran w e (err x) w'

  abbrev pub no_runs : WebhookProcessingSummary
  no_runs = summary_with processed "Webhook event processed."

  abbrev pub Handled :
      World js.Num
      → WebhookEvent js.Num
      → Result Error WebhookProcessingSummary
      → World js.Num
      → Type 0
  Handled w e =
      HandledBy
        (λ ps s v.
          Processed js env actor no_runs ps s v × Trail ps no_runs w.sync_runs s v.sync_runs)
        w e

  pub process_webhook_event_now-Handled :
      (id : String) (w : World js.Num) (e : WebhookEvent js.Num)
      → find_event id w.webhook_events ≡ some e
      → let m = process_webhook_event_now js env actor id w in Handled w e m.0 m.1
  unfolding process_webhook_event_now by_connector by_pipelines
  process_webhook_event_now-Handled id w e at =
      let there =
        subst (λ (x : String). find_event x w.webhook_events ≡ some e)
          (sym (find-id (λ (x : WebhookEvent js.Num). x.id) id w.webhook_events e at)) at in
      rw (at, process_webhook_event_now)
        (by_link (connector_of e.connector_id w.connectors) refl there)
    where
      by_run :
          (c : Connector js.Num) (ps : List (SyncPipeline js.Num))
          → active_pipelines c.id w.pipelines ≡ ps
          → connector_of e.connector_id w.connectors ≡ some c
          → find_event e.id w.webhook_events ≡ some e
          → let m = by_pipelines js env actor e ps w in Handled w e m.0 m.1
      by_run c [] none_active link there =
          let m = settle_event js env actor e.id ignored none "webhook_event_ignored" w in
          let (returned, after) =
            settle_event-Settled e ignored none "webhook_event_ignored" w there in
          subst (λ (x : Result Error WebhookProcessingSummary × World js.Num). Handled w e x.0 x.1)
            (settle_event-pure e ignored none "webhook_event_ignored"
              (summary_with ignored "Webhook event ignored: no active pipelines for connector.") w
              there)
            (idle c m.1 link none_active after)
      by_run c (p ∷ ps) some_active link there =
          let m = run_all e (p ∷ ps) w in
          let kept =
            process_pipelines-Unharmed js env actor e.payload_json
              (or_own_id e.idempotency_key e.id) (summary_with processed "Webhook event processed.")
              (p ∷ ps) w in
          by_result m.0 refl (ap (find_event e.id) kept.webhook_events ∙ there)
        where
          by_result :
              (r : Result Error WebhookProcessingSummary)
              → (run_all e (p ∷ ps) w).0 ≡ r
              → find_event e.id (run_all e (p ∷ ps) w).1.webhook_events ≡ some e
              → let m =
                  continue r
                    (λ s.
                      settle_event js env actor e.id processed none "webhook_event_processed"
                      >> pure s)
                    (run_all e (p ∷ ps) w).1 in
                Handled w e m.0 m.1
          by_result (ok s) returned still =
              let v = (run_all e (p ∷ ps) w).1 in
              let m = settle_event js env actor e.id processed none "webhook_event_processed" v in
              let (done, after) =
                settle_event-Settled e processed none "webhook_event_processed" v still in
              subst
                (λ (x : Result Error WebhookProcessingSummary × World js.Num). Handled w e x.0 x.1)
                (settle_event-pure e processed none "webhook_event_processed" s v still)
                (ran c s v m.1 link
                  (rw some_active (
                    process_pipelines-Processed js env actor e.payload_json
                        (or_own_id e.idempotency_key e.id) (p ∷ ps) no_runs w tt s returned,
                    process_pipelines-Trail js env actor e.payload_json
                        (or_own_id e.idempotency_key e.id) (p ∷ ps) no_runs w s returned,
                  ))
                  after)
          by_result (err x) thrown still =
              interrupted c x (run_all e (p ∷ ps) w).1 link (rw some_active thrown) still

      by_link :
          (o : Option (Connector js.Num))
          → connector_of e.connector_id w.connectors ≡ o
          → find_event e.id w.webhook_events ≡ some e
          → let m = by_connector js env actor e o w in Handled w e m.0 m.1
      by_link none link there =
          let m =
            settle_event js env actor e.id failed (some "Connector not found for webhook event")
              "webhook_event_processing_failed" w in
          let (returned, after) =
            settle_event-Settled e failed (some "Connector not found for webhook event")
              "webhook_event_processing_failed" w there in
          subst (λ (x : Result Error WebhookProcessingSummary × World js.Num). Handled w e x.0 x.1)
            (settle_event-pure e failed (some "Connector not found for webhook event")
              "webhook_event_processing_failed"
              (summary_with failed "Webhook event failed: connector not found.") w there)
            (unconnected m.1 link after)
      by_link (some c) link there = by_run c (active_pipelines c.id w.pipelines) refl link there

  Handled-EachRan :
      (w : World js.Num) (e : WebhookEvent js.Num) (r : Result Error WebhookProcessingSummary)
      (w' : World js.Num)
      → HasDistinctIds (λ r. r.id) w'.sync_runs
      → Handled w e r w'
      → HandledBy (λ ps s v. EachRan ps no_runs w.sync_runs s v.sync_runs) w e r w'
  Handled-EachRan w e _ w' distinct (unconnected v' link after) = unconnected w' link after
  Handled-EachRan w e _ w' distinct (idle c v' link none_active after) =
      idle c w' link none_active after
  Handled-EachRan w e _ w' distinct (ran c s v v' link (all, trail) after) =
      ran c s v w' link
        (Trail-EachRan (active_pipelines c.id w.pipelines) no_runs s w.sync_runs v.sync_runs trail
          (subst (HasDistinctIds (λ (x : SyncRun). x.id)) after.runs distinct))
        after
  Handled-EachRan w e _ w' distinct (interrupted c x v' link thrown still) =
      interrupted c x w' link thrown still

  -- `processWebhookEventNow` on an event that is in the table, where the table of runs has distinct ids
  -- in the end, as its primary key demands, ends in one of four ways. Without a connector the event is
  -- FAILED; with a connector that has no active pipeline it is IGNORED, both without a new run.
  -- Otherwise the event is PROCESSED and the table of runs has grown by exactly one row for each active
  -- pipeline, in their order: a webhook run of that pipeline that is SUCCESS or FAILED; the summary
  -- lists the ids of the pipelines and of these runs, and counts as processed those that are SUCCESS and
  -- as failed those that are FAILED. If a run throws, the error goes on to the caller and the row of the
  -- event stays as it was.
  pub process_webhook_event_now-EachRan :
      (id : String) (w : World js.Num) (e : WebhookEvent js.Num)
      → find_event id w.webhook_events ≡ some e
      → HasDistinctIds (λ r. r.id) (process_webhook_event_now js env actor id w).1.sync_runs
      → let m = process_webhook_event_now js env actor id w in
        HandledBy (λ ps s v. EachRan ps no_runs w.sync_runs s v.sync_runs) w e m.0 m.1
  process_webhook_event_now-EachRan id w e at distinct =
      let m = process_webhook_event_now js env actor id w in
      Handled-EachRan w e m.0 m.1 distinct (process_webhook_event_now-Handled id w e at)

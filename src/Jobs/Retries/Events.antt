-- ===== src/Jobs/Retries/Events.antt =====
-- The tries at a message for a webhook event, apps/api/src/workers/webhook-event.processor.ts.
use mathlib.Core.Path.{subst}
use sync_bridge_platform.Base.{
  ℕ, ◌+◌, ◌≤◌, String, Option, some, List, ◌≡◌, refl, ◌∙◌, ap, ◌≢◌, arith, Result, ok, err,
}
use sync_bridge_platform.Js.{Js}
use sync_bridge_platform.Database.{
  received, failed, completed, BackgroundJob, WebhookEvent, ProcessWebhookEventJobPayload, World,
}
use sync_bridge_platform.Database.Laws.{find-id}
use sync_bridge_platform.Effects.{Error, Env, M}
use sync_bridge_platform.SyncRuns.Tables.{Actor, find_job}
use sync_bridge_platform.Webhooks.Tables.{find_event}
use sync_bridge_platform.Webhooks.Process.{WebhookProcessingSummary}
use sync_bridge_platform.Webhooks.Process.Handled.{Handled, unconnected, idle, ran}
use sync_bridge_platform.Webhooks.Worker.Settles.{
  Attempted, went_through, threw, process_queued_webhook_event-Attempted,
}
use sync_bridge_platform.Jobs.Queue.{QueueSettings, process_webhook_event_job}
use sync_bridge_platform.Jobs.Retries.{Tries, tries_leave}

module _ (js : Js) (env : Env) (payload : ProcessWebhookEventJobPayload) where
  pub record HasEvent (w : World js.Num) (j : BackgroundJob) (e : WebhookEvent js.Num)
      : Type 0 where
    pub job : find_job payload.background_job_id w.background_jobs ≡ some j
    pub event : find_event payload.webhook_event_id w.webhook_events ≡ some e

  abbrev pub IsReady : World js.Num → Type 0
  IsReady w = (j : BackgroundJob) × (e : WebhookEvent js.Num) × HasEvent w j e

  -- Other handlers may change the job and the event, but they leave them in the tables.
  pub record LeavesEvent (u w : World js.Num) : Type 0 where
    pub left : IsReady u → IsReady w

  abbrev pub Agree : Result Error (Unit {0}) → BackgroundJob → WebhookEvent js.Num → Type 0
  Agree (ok done) j e = (j.status ≡ completed) × (e.status ≢ received)
  Agree (err x) j e = (j.status ≡ failed) × (e.status ≡ failed) × (j.last_error ≡ e.error_message)

  pub record IsEnded (made : ℕ) (result : Result Error (Unit {0})) (w : World js.Num) : Type 0 where
    pub job : BackgroundJob
    pub event : WebhookEvent js.Num
    pub rows : HasEvent w job event
    pub agree : Agree result job event
    pub attempts : job.attempts ≡ made + 1

  -- An event whose processing returned is there and has left RECEIVED.
  IsClosed : String → World js.Num → Type 0
  IsClosed id v =
      (e : WebhookEvent js.Num) × (find_event id v.webhook_events ≡ some e) × (e.status ≢ received)

  Handled-IsClosed :
      {by : Option Actor} {w : World js.Num} {e : WebhookEvent js.Num}
      {s : WebhookProcessingSummary} {v : World js.Num}
      → Handled js env by w e (ok s) v
      → IsClosed e.id v
  unfolding IsClosed
  Handled-IsClosed (unconnected v link s) = (_, s.event.1, λ h. ground arith)
  Handled-IsClosed (idle c v link none_active s) = (_, s.event.1, λ h. ground arith)
  Handled-IsClosed (ran c s u v link runs after) = (_, after.event.1, λ h. ground arith)

  -- The rows of an attempt go by their own ids, which are those of the message.
  module _ {w : World js.Num} {j : BackgroundJob} {e : WebhookEvent js.Num}
      (before : HasEvent w j e) where
    job_by_message :
        (jobs : List BackgroundJob) {j' : BackgroundJob}
        → find_job j.id jobs ≡ some j'
        → find_job payload.background_job_id jobs ≡ some j'
    job_by_message jobs {j'} found =
        subst (λ id. find_job id jobs ≡ some j')
          (find-id (λ (y : BackgroundJob). y.id) payload.background_job_id w.background_jobs j
            before.job)
          found

    event_by_message :
        (events : List (WebhookEvent js.Num)) {e' : WebhookEvent js.Num}
        → find_event e.id events ≡ some e'
        → find_event payload.webhook_event_id events ≡ some e'
    event_by_message events {e'} found =
        subst (λ id. find_event id events ≡ some e')
          (find-id (λ (y : WebhookEvent js.Num). y.id) payload.webhook_event_id w.webhook_events e
            before.event)
          found

    Attempted-IsEnded :
        {made : ℕ} {result : Result Error (Unit {0})} {w' : World js.Num}
        → Attempted js env payload (made + 1) w j e result w'
        → IsEnded made result w'
    unfolding IsClosed
    Attempted-IsEnded (went_through s v w' handled job events runs) =
        let (e', found, other) = Handled-IsClosed handled in
        record {
          job = _;
          event = e';
          rows = record {
            job = job_by_message w'.background_jobs job;
            event = event_by_message w'.webhook_events (ap (find_event e.id) events ∙ found);
          };
          agree = (refl, other);
          attempts = refl;
        }
    Attempted-IsEnded (threw x v w' handled message same job event) = record {
      job = _;
      event = _;
      rows = record {
        job = job_by_message w'.background_jobs job;
        event = event_by_message w'.webhook_events event;
      };
      agree = (refl, refl, refl);
      attempts = refl;
    }

  abbrev attempt : ℕ → M js.Num (Unit {0})
  attempt made = process_webhook_event_job js env "process-webhook-event" payload made

  attempt-IsEnded :
      (made : ℕ) (w : World js.Num) → IsReady w → IsEnded made (attempt made w).0 (attempt made w).1
  unfolding process_webhook_event_job
  attempt-IsEnded made w (j, e, there) =
      Attempted-IsEnded there (
        process_queued_webhook_event-Attempted js env payload (made + 1) w j e there.job
          there.event)

  -- However often the queue tries a message for an event that is in the tables with its job, and whatever
  -- other handlers do to the two rows in between, short of removing them: behind every try neither is
  -- left open. If the last try returned, the job is COMPLETED and the event is no longer RECEIVED; if it
  -- threw, both are FAILED with the same message. The job counts the tries, and there are at most as
  -- many as the settings allow.
  pub webhook_event_tries-IsEnded :
      (s : QueueSettings) (v : World js.Num)
      → IsReady v
      → {made : ℕ} {result : Result Error (Unit {0})} {w : World js.Num}
      → Tries attempt LeavesEvent s.default_attempts v made result w
      → IsEnded made result w × (made + 1 ≤ s.default_attempts)
  webhook_event_tries-IsEnded s v ready tries =
      tries_leave IsReady IsEnded attempt-IsEnded
        (λ made x u y last meanwhile. meanwhile.left (last.job, last.event, last.rows))
        s.default_attempts ready tries

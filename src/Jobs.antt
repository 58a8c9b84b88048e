-- ===== src/Jobs.antt =====
-- apps/api/src/jobs/job-status.service.ts: who is shown the state of a background job. A job is answered as
-- its row is. `enqueueJob` of apps/api/src/jobs/jobs.service.ts stands in SyncRuns/Execute.
pub mod Laws
pub mod Queue
pub mod Retries
use sync_bridge_platform.Base.{
  String, Bool, true, false, not, ◌&&◌, Option, none, some, List, [], ◌==◌,
}
use sync_bridge_platform.Database.{
  sync_run, webhook_processing, BackgroundJob, BackgroundJobType, SyncRun, WebhookEvent, World,
}
use sync_bridge_platform.Effects.{
  not_found, forbidden, plain, M, pure, throw, throw_if, or_throw, gets, ◌>>=◌, ◌>>◌,
}
use sync_bridge_platform.SyncRuns.Tables.{Actor, find_job, find_run, find_pipeline}
use sync_bridge_platform.SyncRuns.Execute.{is_privileged}
use sync_bridge_platform.Webhooks.Tables.{find_event, connector_of}
use sync_bridge_platform.Webhooks.Handlers.{latest_job, owned_by, owner_of}

module _ {N : Type 0} where
  -- The owner of the pipeline of a run; the foreign key of the table provides the pipeline.
  abbrev pub owner_of_run : SyncRun → M N String
  owner_of_run run = do
    related ← gets (λ w. find_pipeline run.pipeline_id w.pipelines)
    p ← or_throw related (plain "Inconsistent query result")
    pure p.owner_id

  -- `!syncRun || syncRun.pipeline.ownerId !== user.sub`
  abbrev assert_own_run : Option SyncRun → String → M N (Unit {0})
  assert_own_run none sub = throw (forbidden "You do not have access to this job")
  assert_own_run (some run) sub = do
    owner_id ← owner_of_run run
    throw_if (not (owner_id == sub)) (forbidden "You do not have access to this job")

  -- `!event || !event.connector || event.connector.ownerId !== user.sub`
  abbrev assert_own_event : Option (WebhookEvent N) → String → M N (Unit {0})
  assert_own_event none sub = throw (forbidden "You do not have access to this job")
  assert_own_event (some event) sub = do
    connector ← gets (λ w. connector_of event.connector_id w.connectors)
    throw_if (not (owned_by (owner_of connector) sub))
        (forbidden "You do not have access to this job")

  abbrev assert_own_entity : BackgroundJobType → String → String → M N (Unit {0})
  assert_own_entity sync_run entity_id sub = do
    run ← gets (λ w. find_run entity_id w.sync_runs)
    assert_own_run run sub
  assert_own_entity webhook_processing entity_id sub = do
    event ← gets (λ w. find_event entity_id w.webhook_events)
    assert_own_event event sub

  abbrev unless_privileged : Bool → M N (Unit {0}) → M N (Unit {0})
  unless_privileged true check = pure tt
  unless_privileged false check = check

  unfoldable pub assert_can_access_job : String → BackgroundJobType → Actor → M N (Unit {0})
  assert_can_access_job entity_id type caller =
      unless_privileged (is_privileged caller.role) (assert_own_entity type entity_id caller.sub)

  -- `getById`
  unfoldable pub get_job : String → Actor → M N BackgroundJob
  get_job job_id caller = do
    found ← gets (λ w. find_job job_id w.background_jobs)
    job ← or_throw found (not_found "Background job not found")
    assert_can_access_job job.entity_id job.type caller
    pure job

  -- `getBySyncRunId`
  unfoldable pub get_job_by_sync_run_id : String → Actor → M N BackgroundJob
  get_job_by_sync_run_id sync_run_id caller = do
    found ← gets (λ w. find_run sync_run_id w.sync_runs)
    run ← or_throw found (not_found "Sync run not found")
    owner_id ← owner_of_run run
    throw_if (not (is_privileged caller.role) && not (owner_id == caller.sub))
        (forbidden "You do not have access to this sync run")
    latest ← gets (λ w. latest_job "sync_run" sync_run_id w.background_jobs)
    or_throw latest (not_found "Background job not found for sync run")

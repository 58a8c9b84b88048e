-- ===== src/Dashboard.antt =====
-- apps/api/src/dashboard/dashboard.service.ts: `getSummary`, which only reads. The columns of related rows are
-- left out.
pub mod Laws
use sync_bridge_platform.Base.{
  ℕ, String, Bool, true, false, ◌&&◌, List, [], ◌∷◌, ◌==◌, keep, take, length, latest_first,
  if◌then◌else◌,
}
use sync_bridge_platform.Database.{failed, SyncRun, SyncRunStatus, WebhookEvent, World}
use sync_bridge_platform.SyncRuns.Tables.{Actor}
use sync_bridge_platform.SyncRuns.Execute.{is_privileged}
use sync_bridge_platform.SyncRuns.Listing.{owned_ids, is_of}
use sync_bridge_platform.Webhooks.Listing.{is_owned}

pub record DashboardSummary (N : Type 0) : Type 0 where
  pub connectors_count : ℕ
  pub pipelines_count : ℕ
  pub sync_runs_count : ℕ
  pub webhook_events_count : ℕ
  pub failed_runs_count : ℕ
  pub latest_runs : List SyncRun
  pub latest_webhook_events : List (WebhookEvent N)

abbrev pub is_failed : SyncRun → Bool
is_failed r = elim (r.status) [ failed ↦ true | _ ↦ false ]

-- `pipelineIds.length > 0 ? { pipelineId: { in: pipelineIds } } : { id: '__none__' }`
unfoldable pub pipeline_filter : List String → SyncRun → Bool
pipeline_filter [] r = r.id == "__none__"
pipeline_filter (id ∷ ids) r = is_of (id ∷ ids) r

-- `orderBy: { createdAt: 'desc' }, take: 5`
abbrev pub latest_five : {R : Type 0} → List R → List R
latest_five rows = take 5 (latest_first rows)

module _ {N : Type 0} where
  abbrev summary_of_all : World N → DashboardSummary N
  summary_of_all w = record {
    connectors_count = length w.connectors;
    pipelines_count = length w.pipelines;
    sync_runs_count = length w.sync_runs;
    webhook_events_count = length w.webhook_events;
    failed_runs_count = length (keep is_failed w.sync_runs);
    latest_runs = latest_five w.sync_runs;
    latest_webhook_events = latest_five w.webhook_events;
  }

  abbrev summary_of_own : Actor → World N → DashboardSummary N
  summary_of_own caller w =
      let filter = pipeline_filter (owned_ids caller w) in
      record {
        connectors_count = length (keep (λ c. c.owner_id == caller.sub) w.connectors);
        pipelines_count = length (keep (λ p. p.owner_id == caller.sub) w.pipelines);
        sync_runs_count = length (keep filter w.sync_runs);
        webhook_events_count = length (keep (is_owned caller w) w.webhook_events);
        failed_runs_count = length (keep (λ r. filter r && is_failed r) w.sync_runs);
        latest_runs = latest_five (keep filter w.sync_runs);
        latest_webhook_events = latest_five (keep (is_owned caller w) w.webhook_events);
      }

  unfoldable pub get_summary : Actor → World N → DashboardSummary N
  get_summary caller w =
      if is_privileged caller.role then summary_of_all w else summary_of_own caller w

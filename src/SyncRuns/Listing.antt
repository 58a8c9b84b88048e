-- ===== src/SyncRuns/Listing.antt =====
-- apps/api/src/sync-runs/sync-runs.service.ts: `listByPipeline` and `listAll`. They only read; the columns of
-- the pipeline that come with each run are left out.
pub mod Laws
use sync_bridge_platform.Base.{
  ℕ, String, Bool, true, false, ◌&&◌, ◌||◌, Option, none, some, List, [], ◌∷◌, map, ◌==◌, any, keep,
  latest_first, or_else, nat_eq, if◌then◌else◌,
}
use sync_bridge_platform.Database.{
  queued, running, success, failed, cancelled, SyncRun, SyncRunStatus, SyncPipeline, World,
}
use sync_bridge_platform.Effects.{M, gets, ◌>>=◌}
use sync_bridge_platform.Listing.{ListQuery, PaginatedResponse, page_of, no_page}
use sync_bridge_platform.SyncRuns.Tables.{Actor}
use sync_bridge_platform.SyncRuns.Execute.{is_privileged, find_one}

abbrev rank : SyncRunStatus → ℕ
rank queued = 0
rank running = 1
rank success = 2
rank failed = 3
rank cancelled = 4

-- `query.status ? { status: query.status } : {}`
abbrev pub has_status : Option SyncRunStatus → SyncRun → Bool
has_status none r = true
has_status (some status) r = nat_eq (rank r.status) (rank status)

-- `{ pipelineId: { in: ids } }`
abbrev pub is_of : List String → SyncRun → Bool
is_of ids r = any (λ id. id == r.pipeline_id) ids

module _ {N : Type 0} where
  unfoldable pub list_by_pipeline : String → Actor → M N (List SyncRun)
  list_by_pipeline pipeline_id caller = do
    p ← find_one pipeline_id caller
    gets (λ w. latest_first (keep (λ r. r.pipeline_id == pipeline_id) w.sync_runs))

  -- The ids of `findMany({ where: { ownerId: user.sub }, select: { id: true } })`
  abbrev pub owned_ids : Actor → World N → List String
  owned_ids caller w = map (λ p. p.id) (keep (λ p. p.owner_id == caller.sub) w.pipelines)

  abbrev pub scoped_page :
      List String → ListQuery SyncRunStatus → World N → PaginatedResponse SyncRun
  scoped_page [] query w = no_page (or_else query.page 1) (or_else query.limit 20)
  scoped_page (id ∷ ids) query w =
      page_of (or_else query.page 1) (or_else query.limit 20)
        (keep (λ r. has_status query.status r && is_of (id ∷ ids) r) w.sync_runs)

  unfoldable pub list_all : ListQuery SyncRunStatus → Actor → World N → PaginatedResponse SyncRun
  list_all query caller w =
      if is_privileged caller.role
      then page_of (or_else query.page 1) (or_else query.limit 20)
          (keep (has_status query.status) w.sync_runs)
      else scoped_page (owned_ids caller w) query w

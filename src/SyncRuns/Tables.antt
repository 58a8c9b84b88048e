-- ===== src/SyncRuns/Tables.antt =====
-- The calls of the database client in apps/api/src/sync-runs/sync-runs.service.ts, each on its table.
use sync_bridge_platform.Base.{
  suc, String, Option, none, some, List, [], ◌∷◌, ◌++◌, ok, err, if◌then◌else◌,
}
use sync_bridge_platform.Database.{
  SyncPipeline, SyncRun, BackgroundJob, SyncedRecord, UserRole, find, update,
}
use sync_bridge_platform.Effects.{plain, Env, M}

-- `AuthenticatedUser`, and the defined case of `AuditActor`.
pub record Actor : Type 0 where
  pub sub : String
  pub role : UserRole

abbrev pub actor_id : Option Actor → Option String
actor_id none = none
actor_id (some a) = some a.sub

abbrev pub find_run : String → List SyncRun → Option SyncRun
find_run = find (λ r. r.id)

abbrev pub find_job : String → List BackgroundJob → Option BackgroundJob
find_job = find (λ j. j.id)

module _ {N : Type 0} where
  abbrev pub find_pipeline : String → List (SyncPipeline N) → Option (SyncPipeline N)
  find_pipeline = find (λ p. p.id)

  -- `prisma.syncPipeline.update`, `prisma.syncRun.update`, `prisma.backgroundJob.update`
  unfoldable pub update_pipeline : String → (SyncPipeline N → SyncPipeline N) → M N (SyncPipeline N)
  update_pipeline id change w = elim (find_pipeline id w.pipelines) [
    | none ↦ (err (plain "Pipeline not found"), w)
    | some p ↦ (ok (change p), record w { pipelines = update (λ q. q.id) id change w.pipelines })
  ]

  unfoldable pub update_run : String → (SyncRun → SyncRun) → M N SyncRun
  update_run id change w = elim (find_run id w.sync_runs) [
    | none ↦ (err (plain "Sync run not found"), w)
    | some r ↦ (ok (change r), record w { sync_runs = update (λ q. q.id) id change w.sync_runs })
  ]

  unfoldable pub update_job : String → (BackgroundJob → BackgroundJob) → M N BackgroundJob
  update_job id change w = elim (find_job id w.background_jobs) [
    | none ↦ (err (plain "Background job not found"), w)
    | some j ↦ (
      ok (change j),
      record w { background_jobs = update (λ q. q.id) id change w.background_jobs },
    )
  ]

  -- `prisma.syncRun.create` and `prisma.backgroundJob.create`; the id is a new one.
  unfoldable pub create_run : Env → (String → SyncRun) → M N SyncRun
  create_run env row w =
      let made = row (env.uuid w.ticks) in
      (ok made, record w { sync_runs = w.sync_runs ++ made ∷ []; ticks = suc w.ticks })

  unfoldable pub create_job : Env → (String → BackgroundJob) → M N BackgroundJob
  create_job env row w =
      let made = row (env.uuid w.ticks) in
      (ok made, record w { background_jobs = w.background_jobs ++ made ∷ []; ticks = suc w.ticks })

  -- `prisma.syncedRecord.create`, which stands in a `try` block.
  unfoldable pub create_synced_record : Env → (String → SyncedRecord N) → M N (SyncedRecord N)
  create_synced_record env row w =
      if env.insert_fails w.ticks
      then (err (plain "Synced record not created"), record w { ticks = suc w.ticks })
      else (let made = row (env.uuid w.ticks) in
          (
            ok made,
            record w { synced_records = w.synced_records ++ made ∷ []; ticks = suc w.ticks },
          ))

-- ===== src/SyncRuns/Execute/Laws.antt =====
-- apps/api/src/sync-runs/sync-runs.service.ts: who may read a pipeline or a run, and what a run that
-- was created leaves behind when something throws.
use sync_bridge_platform.Base.{
  suc, String, Bool, true, ◌&&◌, none, some, List, [], ◌∷◌, ◌++◌, ◌==◌, ◌≡◌, refl, sym, ◌∙◌, ap,
  ◌⊎◌, inl, inr, arith, eq_iff, eq_refl, any, ok, err, Result-cases, Bool-cases, Option-cases,
}
use sync_bridge_platform.Js.{Js}
use sync_bridge_platform.Database.{
  SyncRunStatus, running, user, operator, admin, queued, UserRole, SyncPipeline, SyncRun, World,
  find,
}
use sync_bridge_platform.Effects.{Error, Env, log}
use sync_bridge_platform.SyncRuns.Tables.{
  Actor, actor_id, find_pipeline, find_run, update_run, update_pipeline, create_run, create_job,
}
use sync_bridge_platform.SyncRuns.Records.{process_run_records}
use sync_bridge_platform.SyncRuns.Records.Frame.{process_run_records-SameTables}
use sync_bridge_platform.SyncRuns.Records.Kept.{process_run_records-Kept}
use sync_bridge_platform.SyncRuns.Execute.{
  CreateRunOptions, is_privileged, is_active, find_by_id, has_active_run, queue_sync_run,
  enqueue_execute_sync_run_job, initial_run, execute_sync_run_now,
}

-- A role that reads everything.
pub data IsPrivileged : UserRole → Type 0 where
  by_operator : IsPrivileged operator
  by_admin : IsPrivileged admin

is_privileged_sound : (role : UserRole) → is_privileged role ≡ true → IsPrivileged role
unfolding is_privileged
is_privileged_sound user h = absurd (ground arith)
is_privileged_sound operator h = by_operator
is_privileged_sound admin h = by_admin

any-append :
    {A : Type 0} (f : A → Bool) (xs ys : List A) → any f ys ≡ true → any f (xs ++ ys) ≡ true
any-append f [] ys h = h
any-append f (x ∷ xs) ys h = ground (arith, any-append f xs ys h)

module _ {N : Type 0} where
  -- A caller who is given a run is an operator, an admin or the owner of the run's pipeline; the run is
  -- the one with the id, and nothing is written.
  pub find_by_id_access :
      (id : String) (caller : Actor) (w w' : World N) (r : SyncRun)
      → find_by_id id caller w ≡ (ok r, w')
      → (w' ≡ w)
        × (find_run id w.sync_runs ≡ some r)
        × (p : SyncPipeline N) × (find_pipeline r.pipeline_id w.pipelines ≡ some p)
        × (IsPrivileged caller.role ⊎ (p.owner_id ≡ caller.sub))
  unfolding find_by_id
  find_by_id_access id caller w w' r h = elim (Option-cases (find_run id w.sync_runs)) [
    | inl no_run ↦ absurd (ground arith)
    | inr (r', run) ↦ elim (Option-cases (find_pipeline r'.pipeline_id w.pipelines)) [
      | inl no_pipeline ↦ absurd (ground arith)
      | inr (p, found) ↦ elim (Bool-cases (is_privileged caller.role)) [
        | inl privileged ↦ (
          ground arith,
          ground arith,
          p,
          ground arith,
          inl (is_privileged_sound caller.role privileged),
        )
        | inr plain' ↦ elim (Bool-cases (p.owner_id == caller.sub)) [
          | inl owner ↦ (
            ground arith,
            ground arith,
            p,
            ground arith,
            inr (ground (arith, eq_iff p.owner_id caller.sub)),
          )
          | inr other ↦ absurd (ground arith)
        ]
      ]
    ]
  ]

  -- A run that is queued or running blocks its pipeline.
  active_last :
      (pipeline_id : String) (runs : List SyncRun) (r : SyncRun) (w : World N)
      → r.pipeline_id ≡ pipeline_id
      → is_active r.status ≡ true
      → w.sync_runs ≡ runs ++ r ∷ []
      → has_active_run pipeline_id w ≡ true
  unfolding has_active_run
  active_last pipeline_id runs r w own act e =
      ap (any (λ x. x.pipeline_id == pipeline_id && is_active x.status)) e
      ∙ any-append (λ (x : SyncRun). x.pipeline_id == pipeline_id && is_active x.status) runs
          (r ∷ []) (ground (arith, own, act, eq_refl pipeline_id))

  -- A run that a call has added to the table, in a status that blocks its pipeline.
  pub record LeftBehind (pipeline_id : String) (status : SyncRunStatus) (w w' : World N)
      : Type 0 where
    pub run : SyncRun
    pub added : w'.sync_runs ≡ w.sync_runs ++ run ∷ []
    pub of_pipeline : run.pipeline_id ≡ pipeline_id
    pub has_status : run.status ≡ status
    pub blocks : has_active_run pipeline_id w' ≡ true

  left_behind :
      (r : SyncRun) (w w' : World N)
      → is_active r.status ≡ true
      → w'.sync_runs ≡ w.sync_runs ++ r ∷ []
      → LeftBehind r.pipeline_id r.status w w'
  left_behind r w w' act e = record {
    run = r;
    added = e;
    of_pipeline = refl;
    has_status = refl;
    blocks = active_last r.pipeline_id w.sync_runs r w' refl act e;
  }

  -- Where queueing a run throws, the run that it has created is left in the table as QUEUED, so that its
  -- pipeline counts as having an active run.
  pub queue_sync_run_throws :
      (env : Env) (pipeline : SyncPipeline N) (options : CreateRunOptions N) (w w' : World N)
      (e : Error)
      → queue_sync_run env pipeline options w ≡ (err e, w')
      → LeftBehind pipeline.id queued w w'
  unfolding queue_sync_run create_run create_job enqueue_execute_sync_run_job is_active
  queue_sync_run_throws env pipeline options w w' e h =
      left_behind
        (record {
          id = env.uuid w.ticks;
          pipeline_id = pipeline.id;
          status = queued;
          trigger_type = options.trigger_type;
          records_received = 0;
          records_processed = 0;
          records_failed = 0;
          error_message = none;
          started_at = none;
          finished_at = none;
        })
        w w' refl (ground arith)

module _ (js : Js) (env : Env) where
  find-append :
      (id : String) (runs : List SyncRun) (r : SyncRun)
      → r.id ≡ id
      → (q : SyncRun) × (find_run id (runs ++ r ∷ []) ≡ some q)
  unfolding find
  find-append id [] r e = (r, ground (arith, e, eq_refl id))
  find-append id (x ∷ runs) r e =
      let (q, ih) = find-append id runs r e in
      elim (Bool-cases (x.id == id)) [
        | inl here ↦ (x, ground arith)
        | inr there ↦ (q, ground arith)
      ]

  -- Where an immediate run throws, although its pipeline is in the table, the run that it has created is
  -- left in the table as RUNNING, so that the pipeline counts as having an active run.
  pub execute_sync_run_now_throws :
      (pipeline p : SyncPipeline js.Num) (options : CreateRunOptions js.Num) (w w' : World js.Num)
      (e : Error)
      → find_pipeline pipeline.id w.pipelines ≡ some p
      → execute_sync_run_now js env pipeline options w ≡ (err e, w')
      → LeftBehind pipeline.id running w w'
  unfolding execute_sync_run_now create_run update_run update_pipeline is_active
  execute_sync_run_now_throws pipeline p options w w' e found h =
      let id = env.uuid (suc w.ticks) in
      let run = initial_run pipeline.id options (env.clock w.ticks) id in
      let v =
        (log "sync_run_started" "sync_run" id (actor_id options.actor)
          (record w { sync_runs = w.sync_runs ++ run ∷ []; ticks = suc (suc w.ticks) })).1 in
      let m =
        process_run_records js env id pipeline options.actor options.mock_records
          options.ignore_cursor v in
      let same =
        process_run_records-SameTables js env id pipeline options.actor options.mock_records
          options.ignore_cursor v in
      let (q, kept) =
        process_run_records-Kept js env id pipeline options.actor options.mock_records
          options.ignore_cursor v p found in
      let (r, there) = find-append id w.sync_runs run refl in
      let still = ap (find_run id) same.sync_runs ∙ there in
      elim (Result-cases m.0) [
        | inl (s, returned) ↦ absurd (ground (arith, h, returned, still, kept))
        | inr (x, threw) ↦
            let e' : m.1 ≡ w' = ground arith in
            left_behind run w w' refl
              (ap (λ (y : World js.Num). y.sync_runs) (sym e') ∙ same.sync_runs)
      ]

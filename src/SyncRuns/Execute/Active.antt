-- ===== src/SyncRuns/Execute/Active.antt =====
-- apps/api/src/sync-runs/sync-runs.service.ts: how many runs of a pipeline are queued or running.
use mathlib.Core.Path.{subst}
use sync_bridge_platform.Base.{
  ℕ, suc, ◌+◌, ◌≤◌, String, Bool, true, false, ◌&&◌, Option, some, List, [], ◌∷◌, ◌++◌, ◌==◌, ◌≡◌,
  refl, sym, ◌∙◌, ap, inl, inr, arith, eq_iff, any, keep, length, Bool-cases, Option-cases,
  if◌then◌else◌,
}
use sync_bridge_platform.Js.{Js}
use sync_bridge_platform.Database.{scheduled, SyncPipeline, SyncRun, MockRecord, World, update}
use sync_bridge_platform.Database.Laws.{find-id}
use sync_bridge_platform.Effects.{Env, draw, log}
use sync_bridge_platform.Effects.Frame.{Frame, Keeps, Keeps-continue}
use sync_bridge_platform.SyncRuns.Tables.{
  Actor, actor_id, find_pipeline, update_run, update_pipeline, create_run, create_job,
}
use sync_bridge_platform.SyncRuns.Records.{RunProcessingSummary, process_run_records}
use sync_bridge_platform.SyncRuns.Records.Frame.{process_run_records-SameTables}
use sync_bridge_platform.SyncRuns.Execute.{
  CreateRunOptions, is_active, get_by_id, has_active_run, enqueue_job, enqueue_execute_sync_run_job,
  queued_run, queue_sync_run, initial_run, finished_run, final_status, execute_sync_run_now,
  create_run_from_pipeline, create_scheduled_for_pipeline,
}

abbrev pub blocks : String → SyncRun → Bool
blocks pipeline_id r = r.pipeline_id == pipeline_id && is_active r.status

abbrev pub active_in : String → List SyncRun → ℕ
active_in pipeline_id runs = length (keep (blocks pipeline_id) runs)

abbrev pub active_runs : {N : Type 0} → String → World N → ℕ
active_runs pipeline_id w = active_in pipeline_id w.sync_runs

-- No pipeline has two runs that are queued or running.
pub record IsSingle {N : Type 0} (w : World N) : Type 0 where
  pub at_most_one : (pipeline_id : String) → active_runs pipeline_id w ≤ 1

keep-append :
    {A : Type 0} (f : A → Bool) (xs ys : List A)
    → length (keep f (xs ++ ys)) ≡ length (keep f xs) + length (keep f ys)
keep-append f [] ys = omega arith
keep-append f (x ∷ xs) ys = ground (arith, keep-append f xs ys)

any-keep : {A : Type 0} (f : A → Bool) (xs : List A) → any f xs ≡ false → length (keep f xs) ≡ 0
any-keep f [] h = refl
any-keep f (x ∷ xs) h = ground (arith, any-keep f xs)

-- A pipeline without an active run has none.
pub active_runs_none :
    {N : Type 0} (pipeline_id : String) (w : World N)
    → has_active_run pipeline_id w ≡ false
    → active_runs pipeline_id w ≡ 0
unfolding has_active_run
active_runs_none pipeline_id w h = any-keep (blocks pipeline_id) w.sync_runs h

-- A run that ends blocks nothing.
update-active :
    (q id : String) (change : SyncRun → SyncRun) (runs : List SyncRun)
    → ((r : SyncRun) → is_active (change r).status ≡ false)
    → active_in q (update (λ r. r.id) id change runs) ≤ active_in q runs
unfolding update
update-active q id change [] ends = omega arith
update-active q id change (r ∷ runs) ends =
    ground (arith, ends r, update-active q id change runs ends)

-- No pipeline has more active runs than before.
abbrev calm : {N : Type 0} → Frame N
calm = record {
  Rel = λ v w. (q : String) → active_runs q w ≤ active_runs q v;
  self = λ w q. omega arith;
  trans = λ a b q. omega (arith, a q, b q);
}

-- At most one more active run, and that of one pipeline.
abbrev pub Grows : {N : Type 0} → String → World N → World N → Type 0
Grows pipeline_id v w =
    (q : String) → active_runs q w ≤ active_runs q v + (if pipeline_id == q then 1 else 0)

-- Where the pipeline had no active run, each has at most one as before.
pub grown :
    {N : Type 0} (pipeline_id : String) (w v : World N)
    → has_active_run pipeline_id w ≡ false
    → Grows pipeline_id w v
    → IsSingle w
    → IsSingle v
grown pipeline_id w v idle grows once = record {
  at_most_one = λ q. elim (Bool-cases (pipeline_id == q)) [
    | inl same ↦
        let none_yet =
          ap (λ x. active_runs x w) (sym ((eq_iff pipeline_id q).0 same))
          ∙ active_runs_none pipeline_id w idle in
        ground (arith, grows q, none_yet, same)
    | inr other ↦ ground (arith, grows q, once.at_most_one q, other)
  ];
}

append-Grows :
    {N : Type 0} (v w : World N) (r : SyncRun)
    → w.sync_runs ≡ v.sync_runs ++ r ∷ []
    → Grows r.pipeline_id v w
append-Grows v w r added q =
    ground (arith, ap (active_in q) added, keep-append (blocks q) v.sync_runs (r ∷ []))

module _ {N : Type 0} where
  queue_sync_run-Grows :
      (env : Env) (pipeline : SyncPipeline N) (options : CreateRunOptions N) (w : World N)
      → Grows pipeline.id w (queue_sync_run env pipeline options w).1
  unfolding queue_sync_run create_run create_job enqueue_execute_sync_run_job enqueue_job
  queue_sync_run-Grows env pipeline options w =
      append-Grows w (queue_sync_run env pipeline options w).1
        (queued_run pipeline.id options (env.uuid w.ticks)) (ground arith)

  finished-inactive :
      (s : RunProcessingSummary N) (t : ℕ) (r : SyncRun)
      → is_active (finished_run s t r).status ≡ false
  unfolding is_active final_status
  finished-inactive s t r = ground arith

  update_run-calm :
      (id : String) (s : RunProcessingSummary N) (t : ℕ)
      → Keeps {N = N} calm (update_run id (finished_run s t))
  unfolding update_run
  update_run-calm id s t w q =
      ground (arith, update-active q id (finished_run s t) w.sync_runs (finished-inactive s t))

  update_pipeline-calm :
      (id : String) (change : SyncPipeline N → SyncPipeline N)
      → Keeps {N = N} calm (update_pipeline id change)
  unfolding update_pipeline
  update_pipeline-calm id change w q = ground arith

module _ (js : Js) (env : Env) where
  execute_sync_run_now-Grows :
      (pipeline : SyncPipeline js.Num) (options : CreateRunOptions js.Num) (w : World js.Num)
      → Grows pipeline.id w (execute_sync_run_now js env pipeline options w).1
  unfolding execute_sync_run_now create_run
  execute_sync_run_now-Grows pipeline options w q =
      let id = env.uuid (suc w.ticks) in
      let run = initial_run pipeline.id options (env.clock w.ticks) id in
      let v =
        (log "sync_run_started" "sync_run" id (actor_id options.actor)
          (record w { sync_runs = w.sync_runs ++ run ∷ []; ticks = suc (suc w.ticks) })).1 in
      let m =
        process_run_records js env id pipeline options.actor options.mock_records
          options.ignore_cursor v in
      let same =
        process_run_records-SameTables js env id pipeline options.actor options.mock_records
          options.ignore_cursor v in
      let first = append-Grows w v run refl q in
      let rest : (p : String)
          → active_runs p (execute_sync_run_now js env pipeline options w).1 ≤ active_runs p v =
        Keeps-continue calm m.0 _ {w = v} {v = m.1}
          (λ p. omega (arith, ap (active_in p) same.sync_runs))
          (λ s.
            let u = (draw env.clock m.1).1 in
            let t = env.clock m.1.ticks in
            let n = update_run id (finished_run s t) u in
            Keeps-continue calm n.0 _ {w = m.1} (update_run-calm id s t u) (λ completed.
              let touch = λ (p : SyncPipeline js.Num). record p { last_run_at = some t } in
              let o = update_pipeline pipeline.id touch n.1 in
              Keeps-continue calm o.0 _ {w = n.1} (update_pipeline-calm pipeline.id touch n.1)
                (λ updated. calm.self o.1))) in
      omega (arith, first, rest q)

  create_run_from_pipeline-Grows :
      (pipeline : SyncPipeline js.Num) (options : CreateRunOptions js.Num) (w : World js.Num)
      → Grows pipeline.id w (create_run_from_pipeline js env pipeline options w).1
  unfolding create_run_from_pipeline
  create_run_from_pipeline-Grows pipeline options w = in_mode env.is_async_mode
    where
      in_mode :
          (async : Bool)
          → Grows pipeline.id w
              ((if async
                  then queue_sync_run env pipeline options
                  else execute_sync_run_now js env pipeline options)
                w).1
      in_mode true = queue_sync_run-Grows env pipeline options w
      in_mode false = execute_sync_run_now-Grows pipeline options w

  abbrev options : List (MockRecord js.Num) → Bool → Option Actor → CreateRunOptions js.Num
  options records ignore_cursor by = record {
    mock_records = records;
    ignore_cursor = ignore_cursor;
    trigger_type = scheduled;
    actor = by;
  }

  -- A scheduled run adds at most one active run, and that to its own pipeline, however it ends.
  pub create_scheduled_for_pipeline-Grows :
      (pipeline_id : String) (records : List (MockRecord js.Num)) (ignore_cursor : Bool)
      (by : Option Actor) (w : World js.Num)
      → Grows pipeline_id w
          (create_scheduled_for_pipeline js env pipeline_id records ignore_cursor by w).1
  unfolding create_scheduled_for_pipeline get_by_id
  create_scheduled_for_pipeline-Grows pipeline_id records ignore_cursor by w =
      elim (Option-cases (find_pipeline pipeline_id w.pipelines)) [
        | inl missing ↦ rw (missing, create_scheduled_for_pipeline, get_by_id) (λ q. omega arith)
        | inr (p, at) ↦
            rw (at, create_scheduled_for_pipeline, get_by_id)
              (subst
                (λ (x : String).
                  Grows x w
                    (create_run_from_pipeline js env p (options records ignore_cursor by) w).1)
                (find-id (λ (x : SyncPipeline js.Num). x.id) pipeline_id w.pipelines p at)
                (create_run_from_pipeline-Grows p (options records ignore_cursor by) w))
      ]

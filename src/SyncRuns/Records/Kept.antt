-- ===== src/SyncRuns/Records/Kept.antt =====
-- apps/api/src/sync-runs/sync-runs.service.ts: a run over records leaves its pipeline in the table.
use sync_bridge_platform.Base.{
  String, Bool, Option, some, List, ◌≡◌, refl, ◌∙◌, ap, inl, inr, arith, Result, ok, err,
  Bool-cases, Option-cases, nat_eq,
}
use sync_bridge_platform.Js.{Js}
use sync_bridge_platform.Database.{SyncPipeline, SyncRun, BackgroundJob, MockRecord, World, update}
use sync_bridge_platform.Database.Laws.{find-update_self}
use sync_bridge_platform.Effects.{Error, Env, M, continue}
use sync_bridge_platform.SyncRuns.Cursor.{cursor_candidate_to_json}
use sync_bridge_platform.SyncRuns.Tables.{
  Actor, find_pipeline, find_run, find_job, update_run, update_pipeline, update_job,
}
use sync_bridge_platform.SyncRuns.Records.{
  Tally, process_run_records, process_records, advance_cursor, compile_mapping_or_throw, eligible,
  no_tally,
}
use sync_bridge_platform.SyncRuns.Records.Frame.{process_records-SameTables}

module _ {N : Type 0} where
  pub update_run_found :
      (id : String) (change : SyncRun → SyncRun) (w : World N) (r : SyncRun)
      → find_run id w.sync_runs ≡ some r
      → update_run id change w
        ≡ (ok (change r), record w { sync_runs = update (λ q. q.id) id change w.sync_runs })
  unfolding update_run
  update_run_found id change w r h = ground arith

  pub update_pipeline_found :
      (id : String) (change : SyncPipeline N → SyncPipeline N) (w : World N) (p : SyncPipeline N)
      → find_pipeline id w.pipelines ≡ some p
      → update_pipeline id change w
        ≡ (ok (change p), record w { pipelines = update (λ q. q.id) id change w.pipelines })
  unfolding update_pipeline
  update_pipeline_found id change w p h = ground arith

  pub update_job_found :
      (id : String) (change : BackgroundJob → BackgroundJob) (w : World N) (j : BackgroundJob)
      → find_job id w.background_jobs ≡ some j
      → update_job id change w ≡ (
        ok (change j),
        record w { background_jobs = update (λ q. q.id) id change w.background_jobs },
      )
  unfolding update_job
  update_job_found id change w j h = ground arith

  -- A table that a service may move on under an id still has a row there.
  abbrev pub Kept : String → List (SyncPipeline N) → List (SyncPipeline N) → Type 0
  Kept id ps qs =
      (p : SyncPipeline N)
      → find_pipeline id ps ≡ some p
      → (q : SyncPipeline N) × (find_pipeline id qs ≡ some q)

  Kept-refl : (id : String) (ps qs : List (SyncPipeline N)) → qs ≡ ps → Kept id ps qs
  Kept-refl id ps qs e p h = (p, ap (find_pipeline id) e ∙ h)

module _ (js : Js) (env : Env) where
  module _ (run_id : String) (pipeline : SyncPipeline js.Num) (actor : Option Actor) where
    advance_cursor-Kept :
        (t : Tally js.Num) (w : World js.Num)
        → Kept pipeline.id w.pipelines (advance_cursor js env run_id pipeline actor t w).1.pipelines
    unfolding advance_cursor update_pipeline
    advance_cursor-Kept t w p h = elim (Bool-cases pipeline.incremental_mode) [
      | inr off ↦ (p, ground arith)
      | inl on ↦ elim (Bool-cases (nat_eq t.failed_count 0)) [
        | inr failed' ↦ (p, ground arith)
        | inl clean ↦ elim (Option-cases t.max_cursor) [
          | inl none' ↦ (p, ground arith)
          | inr (c, latest) ↦ elim (Option-cases (cursor_candidate_to_json js (some c))) [
            | inl empty ↦ (p, ground arith)
            | inr (v, json) ↦ (
              record p { cursor_json = v },
              ground (
                arith,
                find-update_self (λ (q : SyncPipeline js.Num). q.id) pipeline.id
                    (λ q. record q { cursor_json = v }) w.pipelines p (λ q. refl) h,
              ),
            )
          ]
        ]
      ]
    ]

    continue-Kept :
        {A B : Type 0} (r : Result Error A) (f : A → M js.Num B) (id : String)
        (ps : List (SyncPipeline js.Num)) (v : World js.Num)
        → Kept id ps v.pipelines
        → ((a : A) → Kept id ps (f a v).1.pipelines)
        → Kept id ps (continue r f v).1.pipelines
    continue-Kept (ok a) f id ps v here there = there a
    continue-Kept (err e) f id ps v here there = here

    pub process_run_records-Kept :
        (records : List (MockRecord js.Num)) (ignore_cursor : Bool) (w : World js.Num)
        → Kept pipeline.id w.pipelines
            (process_run_records js env run_id pipeline actor records ignore_cursor w).1.pipelines
    unfolding process_run_records
    process_run_records-Kept records ignore_cursor w =
        let id = pipeline.id in
        continue-Kept (compile_mapping_or_throw js pipeline.mapping_json) _ id w.pipelines w
          (Kept-refl id w.pipelines w.pipelines refl)
          λ fields.
            let rs = eligible js pipeline ignore_cursor records in
            let m = process_records js env run_id pipeline actor fields (no_tally js) rs w in
            let same =
              (process_records-SameTables js env run_id pipeline actor fields rs (no_tally js)
                w).1 in
            continue-Kept m.0 _ id w.pipelines m.1 (Kept-refl id w.pipelines m.1.pipelines same)
              λ t.
                let moved : Kept id w.pipelines
                    (advance_cursor js env run_id pipeline actor t m.1).1.pipelines =
                  λ p h. advance_cursor-Kept t m.1 p (ap (find_pipeline id) same ∙ h) in
                continue-Kept (advance_cursor js env run_id pipeline actor t m.1).0 _ id w.pipelines
                  (advance_cursor js env run_id pipeline actor t m.1).1 moved λ a. moved

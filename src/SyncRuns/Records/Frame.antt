-- ===== src/SyncRuns/Records/Frame.antt =====
-- The tables that the records of a run leave alone.
use sync_bridge_platform.Base.{
  ◌+◌, String, Bool, Option, List, [], ◌∷◌, ◌≡◌, refl, ◌∙◌, arith, Result, ok, err, length,
}
use sync_bridge_platform.Js.{Js, Fields}
use sync_bridge_platform.Transformations.Errors.{TransformationErrorDetail}
use sync_bridge_platform.Transformations.Mapping.{NormalizedMappingField}
use sync_bridge_platform.Transformations.Record.{Progress, transform_record_with_compiled_mapping}
use sync_bridge_platform.Database.{SyncPipeline, MockRecord, World}
use sync_bridge_platform.Effects.{Error, Env, M, continue}
use sync_bridge_platform.SyncRuns.Tables.{Actor, update_pipeline, create_synced_record}
use sync_bridge_platform.SyncRuns.Records.{
  advance_cursor, process_run_records, compile_mapping_or_throw, no_tally, eligible, transformed,
  Tally, transform, settle_record, process_record, process_records,
}

-- The tables that a run's records never touch.
pub record SameTables {N : Type 0} (w w' : World N) : Type 0 where
  pub sync_runs : w'.sync_runs ≡ w.sync_runs
  pub background_jobs : w'.background_jobs ≡ w.background_jobs
  pub queue : w'.queue ≡ w.queue

pub SameTables-refl : {N : Type 0} (w : World N) → SameTables w w
SameTables-refl w = record { sync_runs = refl; background_jobs = refl; queue = refl }

pub SameTables-trans :
    {N : Type 0} {u v w : World N} → SameTables u v → SameTables v w → SameTables u w
SameTables-trans a b = record {
  sync_runs = b.sync_runs ∙ a.sync_runs;
  background_jobs = b.background_jobs ∙ a.background_jobs;
  queue = b.queue ∙ a.queue;
}

-- A step that leaves the tables alone, and then another if the first returned.
pub continue-SameTables :
    {N A B : Type 0} (r : Result Error A) (f : A → M N B) {w v : World N}
    → SameTables w v
    → ((a : A) → SameTables v (f a v).1)
    → SameTables w (continue r f v).1
continue-SameTables (ok a) f s k = SameTables-trans s (k a)
continue-SameTables (err e) f s k = s

module _ (js : Js) (env : Env) (sync_run_id : String) (pipeline : SyncPipeline js.Num)
    (actor : Option Actor) where
  settle_record-SameTables :
      (r : MockRecord js.Num) (t : Tally js.Num) (normalized : Fields js.Num)
      → (errors : List TransformationErrorDetail) (w : World js.Num)
      → SameTables w (settle_record js env sync_run_id pipeline actor r t normalized errors w).1
        × ((settle_record js env sync_run_id pipeline actor r t normalized errors w).1.pipelines
            ≡ w.pipelines)
  unfolding settle_record create_synced_record
  settle_record-SameTables r t normalized (e ∷ errors) w = ground arith
  settle_record-SameTables r t normalized [] w = ground arith

  process_record-SameTables :
      (fields : List (NormalizedMappingField js.Num)) (t : Tally js.Num) (r : MockRecord js.Num)
      (w : World js.Num)
      → SameTables w (process_record js env sync_run_id pipeline actor fields t r w).1
        × ((process_record js env sync_run_id pipeline actor fields t r w).1.pipelines
            ≡ w.pipelines)
  unfolding process_record transform
  process_record-SameTables fields t r w =
      go (transform_record_with_compiled_mapping js env.computed r.raw fields w.ticks)
    where
      go :
          (m : Result String (Progress js env.computed))
          → let w' =
              (continue
                (transformed js env m w).0
                (λ p.
                  settle_record js env sync_run_id pipeline actor r
                    (record t { total_error_count = t.total_error_count + length p.errors })
                    p.normalized
                    p.errors)
                (transformed js env m w).1).1 in
            SameTables w w' × (w'.pipelines ≡ w.pipelines)
      go (ok p) =
          let (a, b) =
            settle_record-SameTables r
              (record t { total_error_count = t.total_error_count + length p.errors }) p.normalized
              p.errors (record w { ticks = p.calls }) in
          (
            record {
              sync_runs = a.sync_runs;
              background_jobs = a.background_jobs;
              queue = a.queue;
            },
            b,
          )
      go (err m) = (SameTables-refl w, refl)

  pub process_records-SameTables :
      (fields : List (NormalizedMappingField js.Num)) (rs : List (MockRecord js.Num))
      → (t : Tally js.Num) (w : World js.Num)
      → SameTables w (process_records js env sync_run_id pipeline actor fields t rs w).1
        × ((process_records js env sync_run_id pipeline actor fields t rs w).1.pipelines
            ≡ w.pipelines)
  unfolding process_records
  process_records-SameTables fields [] t w = (SameTables-refl w, refl)
  process_records-SameTables fields (r ∷ rs) t w =
      let (a, p) = process_record-SameTables fields t r w in
      go (process_record js env sync_run_id pipeline actor fields t r w).0 a p (λ u.
        process_records-SameTables fields rs u
          (process_record js env sync_run_id pipeline actor fields t r w).1)
    where
      go :
          (m : Result Error (Tally js.Num)) {v : World js.Num}
          → SameTables w v
          → v.pipelines ≡ w.pipelines
          → ((u : Tally js.Num)
              → SameTables v (process_records js env sync_run_id pipeline actor fields u rs v).1
                × ((process_records js env sync_run_id pipeline actor fields u rs v).1.pipelines
                    ≡ v.pipelines))
          → let w' =
              (continue m
                (λ u. process_records js env sync_run_id pipeline actor fields u rs)
                v).1 in
            SameTables w w' × (w'.pipelines ≡ w.pipelines)
      go (ok u) a p ih = let (b, q) = ih u in (SameTables-trans a b, q ∙ p)
      go (err x) a p ih = (a, p)

  update_pipeline-SameTables :
      (id : String) (change : SyncPipeline js.Num → SyncPipeline js.Num) (w : World js.Num)
      → SameTables w (update_pipeline id change w).1
  unfolding update_pipeline
  update_pipeline-SameTables id change w = ground arith

  advance_cursor-SameTables :
      (t : Tally js.Num) (w : World js.Num)
      → SameTables w (advance_cursor js env sync_run_id pipeline actor t w).1
  unfolding advance_cursor update_pipeline
  advance_cursor-SameTables t w = ground arith

  -- A run over records writes no run, no job and no message of the queue, also where it throws.
  pub process_run_records-SameTables :
      (records : List (MockRecord js.Num)) (ignore_cursor : Bool) (w : World js.Num)
      → SameTables w
          (process_run_records js env sync_run_id pipeline actor records ignore_cursor w).1
  unfolding process_run_records
  process_run_records-SameTables records ignore_cursor w =
      continue-SameTables (compile_mapping_or_throw js pipeline.mapping_json) _ (SameTables-refl w)
        λ fields.
          let rs = eligible js pipeline ignore_cursor records in
          let m = process_records js env sync_run_id pipeline actor fields (no_tally js) rs w in
          continue-SameTables m.0 _ (process_records-SameTables fields rs (no_tally js) w).0 λ t.
            let a = advance_cursor js env sync_run_id pipeline actor t m.1 in
            continue-SameTables a.0 _ (advance_cursor-SameTables t m.1) λ x. SameTables-refl a.1

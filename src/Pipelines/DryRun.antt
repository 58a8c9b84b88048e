-- ===== src/Pipelines/DryRun.antt =====
-- What the preview of apps/api/src/pipelines/pipelines.service.ts shows, and that it stores nothing.
use mathlib.Core.Path.{subst}
use sync_bridge_platform.Base.{
  ℕ, ◌+◌, String, Bool, true, not, some, List, [], ◌∷◌, ◌++◌, ◌≡◌, refl, ap, inl, inr, arith,
  Result, ok, err, ok-injective, keep, length, Result-cases,
}
use sync_bridge_platform.Js.{Js}
use sync_bridge_platform.Database.{MockRecord, SyncPipeline, AuditLog, World}
use sync_bridge_platform.Effects.Frame.{Returns, Returns-continue, Returns-ok}
use sync_bridge_platform.Pipelines.Runnable.{may_see, find_one_found}
use sync_bridge_platform.Effects.{Error, Env, pure, continue}
use sync_bridge_platform.Transformations.Mapping.{NormalizedMappingField}
use sync_bridge_platform.Transformations.Record.{Progress, transform_record_with_compiled_mapping}
use sync_bridge_platform.SyncRuns.Tables.{Actor, find_pipeline}
use sync_bridge_platform.SyncRuns.Records.{compile_mapping_or_throw, transform}
use sync_bridge_platform.SyncRuns.Execute.{find_one}
use sync_bridge_platform.Pipelines.{
  PreviewResult, Preview, is_invalid, preview_records, preview_transformation,
}

-- The rows that pass a test and those that do not make up the whole.
length-keep-not :
    {A : Type 0} (p : A → Bool) (xs : List A)
    → length (keep p xs) + length (keep (λ x. not (p x)) xs) ≡ length xs
length-keep-not p [] = omega arith
length-keep-not p (x ∷ xs) = ground (arith, length-keep-not p xs)

abbrev preview_log : String → Actor → AuditLog
preview_log pipeline_id caller = record {
  actor_id = some caller.sub;
  action = "transformation_preview_run";
  entity_type = "pipeline";
  entity_id = pipeline_id;
}

module _ (js : Js) (env : Env) where
  -- A row of the preview is what the engine makes of the record.
  pub record IsRowOf (fields : List (NormalizedMappingField js.Num)) (r : MockRecord js.Num)
      (row : PreviewResult js) : Type 0 where
    pub external_id : row.external_id ≡ r.external_id
    pub raw : row.raw ≡ r.raw
    pub calls : ℕ
    pub progress : Progress js env.computed
    pub transformed :
        transform_record_with_compiled_mapping js env.computed r.raw fields calls ≡ ok progress
    pub normalized : row.normalized ≡ progress.normalized
    pub errors : row.errors ≡ progress.errors

  abbrev pub AreRowsOf :
      List (NormalizedMappingField js.Num)
      → List (MockRecord js.Num)
      → List (PreviewResult js)
      → Type 0
  AreRowsOf fields [] [] = Unit {0}
  AreRowsOf fields [] (row ∷ rows) = ⊥
  AreRowsOf fields (r ∷ records) [] = ⊥
  AreRowsOf fields (r ∷ records) (row ∷ rows) = IsRowOf fields r row × AreRowsOf fields records rows

  length-rows :
      (fields : List (NormalizedMappingField js.Num)) (records : List (MockRecord js.Num))
      (rows : List (PreviewResult js))
      → AreRowsOf fields records rows
      → length rows ≡ length records
  length-rows fields [] [] h = refl
  length-rows fields [] (row ∷ rows) h = absurd h
  length-rows fields (r ∷ records) [] h = absurd h
  length-rows fields (r ∷ records) (row ∷ rows) (a, h) =
      omega (arith, length-rows fields records rows h)

  -- Nothing but the number of the next draw has changed.
  abbrev pub Untouched : World js.Num → World js.Num → Type 0
  Untouched v w = w ≡ record v { ticks = w.ticks }

  -- What a preview of records from `w` on, if it returns, comes to.
  abbrev Sound :
      List (NormalizedMappingField js.Num)
      → List (MockRecord js.Num)
      → World js.Num
      → Result Error (List (PreviewResult js)) × World js.Num
      → Type 0
  Sound fields records w m =
      (rows : List (PreviewResult js))
      → m.0 ≡ ok rows
      → AreRowsOf fields records rows × Untouched w m.1

  err_not_ok : {A : Type 0} {e : Error} {a : A} → ◌≡◌ {A = Result Error A} (err e) (ok a) → ⊥
  err_not_ok h = cc

  Sound-continue :
      (fields : List (NormalizedMappingField js.Num)) (r : MockRecord js.Num)
      (records : List (MockRecord js.Num)) (w : World js.Num) (calls : ℕ) (row : PreviewResult js)
      → IsRowOf fields r row
      → (rest : Result Error (List (PreviewResult js))) (v : World js.Num)
      → Sound fields records (record w { ticks = calls }) (rest, v)
      → Sound fields (r ∷ records) w (continue rest (λ results. pure (row ∷ results)) v)
  Sound-continue fields r records w calls row is_row (ok results) v h rows got =
      let (are, same) = h results refl in
      (subst (AreRowsOf fields (r ∷ records)) (ok-injective got) (is_row, are), same)
  Sound-continue fields r records w calls row is_row (err e) v h rows got = absurd (err_not_ok got)

  preview_records_rows :
      (fields : List (NormalizedMappingField js.Num)) (records : List (MockRecord js.Num))
      (w : World js.Num)
      → Sound fields records w (preview_records js env fields records w)
  unfolding preview_records transform
  preview_records_rows fields [] w =
      λ rows h. (subst (AreRowsOf fields []) (ok-injective h) tt, refl)
  preview_records_rows fields (r ∷ records) w =
      elim (Result-cases
        (transform_record_with_compiled_mapping js env.computed r.raw fields w.ticks)) [
          | inl (p, at) ↦ rw at (
              Sound-continue fields r records w p.calls _
                (record {
                  external_id = refl;
                  raw = refl;
                  calls = w.ticks;
                  progress = p;
                  transformed = at;
                  normalized = refl;
                  errors = refl;
                })
                (preview_records js env fields records (record w { ticks = p.calls })).0 _
                (preview_records_rows fields records (record w { ticks = p.calls })))
          | inr (e, at) ↦ rw at (λ rows got. absurd (err_not_ok got))
        ]

  -- What a preview of `records` from `w` on shows and leaves behind.
  pub record IsDryRun (pipeline_id : String) (records : List (MockRecord js.Num)) (caller : Actor)
      (w : World js.Num) (shown : Preview js) (v : World js.Num) : Type 0 where
    pub pipeline : SyncPipeline js.Num
    pub there : find_pipeline pipeline_id w.pipelines ≡ some pipeline
    pub seen : may_see caller pipeline ≡ true
    pub fields : List (NormalizedMappingField js.Num)
    pub compiled : compile_mapping_or_throw js pipeline.mapping_json ≡ ok fields
    pub rows : AreRowsOf fields records shown.results
    pub received : shown.records_received ≡ length records
    pub valid : shown.records_valid ≡ length (keep (λ x. not (is_invalid js x)) shown.results)
    pub invalid : shown.records_invalid ≡ length (keep (is_invalid js) shown.results)
    pub accounted : shown.records_valid + shown.records_invalid ≡ shown.records_received
    pub log : AuditLog
    pub untouched : v ≡ record w { audit_logs = w.audit_logs ++ log ∷ []; ticks = v.ticks }

  -- A preview that returns is one of a pipeline that the caller may see. It shows one row for each record, in order,
  -- with what the engine makes of the record by the compiled mapping of the pipeline; its counts are those
  -- of the rows with and without errors and add up; and it stores nothing but an entry of the audit log: no
  -- record, no run and no cursor.
  pub preview_transformation-IsDryRun :
      (pipeline_id : String) (records : List (MockRecord js.Num)) (caller : Actor)
      (w : World js.Num)
      → Returns
          (IsDryRun pipeline_id records caller w)
          (preview_transformation js env pipeline_id records caller w)
  unfolding preview_transformation
  preview_transformation-IsDryRun pipeline_id records caller w =
      let P = IsDryRun pipeline_id records caller w in
      Returns-continue P (find_one pipeline_id caller w).0 _ (find_one pipeline_id caller w).1
        (λ p got.
          let (there, seen, same) = find_one_found pipeline_id caller w p got in
          rw same (
            Returns-continue P (compile_mapping_or_throw js p.mapping_json) _ w (λ fields compiled.
              Returns-continue P (preview_records js env fields records w).0 _
                (preview_records js env fields records w).1
                (λ rows shown.
                  let (are, untouched) = preview_records_rows fields records w rows shown in
                  let invalid = length (keep (is_invalid js) rows) in
                  let split = length-keep-not (is_invalid js) rows in
                  let all = length-rows fields records rows are in
                  Returns-ok P _
                    (record (preview_records js env fields records w).1 {
                      audit_logs =
                          (preview_records js env fields records w).1.audit_logs
                          ++ preview_log p.id caller ∷ [];
                    })
                    (record {
                      pipeline = p;
                      there = there;
                      seen = seen;
                      fields = fields;
                      compiled = compiled;
                      rows = are;
                      received = refl;
                      valid = omega (arith, split, all);
                      invalid = refl;
                      accounted = omega (arith, split, all);
                      log = preview_log p.id caller;
                      untouched =
                          ap
                            (λ (u : World js.Num). record u {
                              audit_logs = u.audit_logs ++ preview_log p.id caller ∷ [];
                            })
                            untouched;
                    })))))

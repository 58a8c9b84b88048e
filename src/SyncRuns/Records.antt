-- ===== src/SyncRuns/Records.antt =====
-- apps/api/src/sync-runs/sync-runs.service.ts: `processRunRecords`, which transforms the records of a
-- run, stores them and moves the cursor of the pipeline on.
pub mod Laws
pub mod Frame
pub mod Run
pub mod Kept
use sync_bridge_platform.Base.{
  ℕ, ◌+◌, ◌-◌, String, Bool, true, false, not, ◌&&◌, Option, none, some, List, [], ◌∷◌, map, length,
  Result, ok, err, nat_eq, if◌then◌else◌,
}
use sync_bridge_platform.Js.{Js, Json, Fields}
use sync_bridge_platform.Transformations.Errors.{TransformationErrorDetail}
use sync_bridge_platform.Transformations.Mapping.{
  NormalizedMappingField, MappingError, invalid_mapping, runtime_error, compile_mapping,
}
use sync_bridge_platform.Transformations.Record.{Progress, transform_record_with_compiled_mapping}
use sync_bridge_platform.Database.{SyncPipeline, SyncedRecord, MockRecord, World}
use sync_bridge_platform.Effects.{
  Error, plain, bad_request, Env, M, pure, lift, log_or_throw, try_catch, ◌>>=◌, ◌>>◌,
}
use sync_bridge_platform.SyncRuns.Cursor.{
  Cursor, normalize_cursor_state, extract_cursor_candidate, pick_latest_cursor,
  cursor_candidate_to_json, eligible_records,
}
use sync_bridge_platform.SyncRuns.Tables.{Actor, actor_id, update_pipeline, create_synced_record}

pub record RunProcessingSummary (N : Type 0) : Type 0 where
  pub records_received : ℕ
  pub records_processed : ℕ
  pub records_failed : ℕ
  pub error_count : ℕ
  pub skipped_by_cursor : ℕ
  pub cursor_advanced : Bool
  pub cursor_value : Option (Json N)

-- The variables of the loop.
pub record Tally (N : Type 0) : Type 0 where
  pub created_count : ℕ
  pub failed_count : ℕ
  pub total_error_count : ℕ
  pub max_cursor : Option (Cursor N)

module _ (js : Js) where
  abbrev mapping_error : MappingError → Error
  mapping_error (invalid_mapping errors) = bad_request (map (λ e. e.message) errors)
  mapping_error (runtime_error message) = plain message

  abbrev compiled_or_throw :
      Result MappingError (List (NormalizedMappingField js.Num))
      → Result Error (List (NormalizedMappingField js.Num))
  compiled_or_throw (ok fields) = ok fields
  compiled_or_throw (err e) = err (mapping_error e)

  unfoldable pub compile_mapping_or_throw :
      Fields js.Num → Result Error (List (NormalizedMappingField js.Num))
  compile_mapping_or_throw mapping = compiled_or_throw (compile_mapping js mapping)

  -- The records that a run processes: those that the cursor lets through, in incremental mode unless
  -- the run ignores it.
  abbrev pub eligible :
      SyncPipeline js.Num → Bool → List (MockRecord js.Num) → List (MockRecord js.Num)
  eligible pipeline ignore_cursor mock_records =
      eligible_records js (normalize_cursor_state js pipeline.cursor_json)
        (pipeline.incremental_mode && not ignore_cursor) mock_records

  abbrev pub no_tally : Tally js.Num
  no_tally = record {
    created_count = 0;
    failed_count = 0;
    total_error_count = 0;
    max_cursor = none;
  }

  module _ (env : Env) where
    abbrev transformed :
        Result String (Progress js env.computed) → M js.Num (Progress js env.computed)
    transformed (ok p) w = (ok p, record w { ticks = p.calls })
    transformed (err message) w = (err (plain message), w)

    -- `transformRecordWithCompiledMapping` with the computed values that come next. If it throws, the
    -- computed values up to there are not counted: none of them is kept.
    unfoldable pub transform :
        Fields js.Num → List (NormalizedMappingField js.Num) → M js.Num (Progress js env.computed)
    transform raw fields w =
        transformed (transform_record_with_compiled_mapping js env.computed raw fields w.ticks) w

    module _ (sync_run_id : String) (pipeline : SyncPipeline js.Num) (actor : Option Actor) where
      abbrev synced_row : MockRecord js.Num → Fields js.Num → String → SyncedRecord js.Num
      synced_row r normalized id = record {
        id = id;
        pipeline_id = pipeline.id;
        sync_run_id = some sync_run_id;
        external_id = r.external_id;
        source_type = "MANUAL";
        raw_json = r.raw;
        normalized_json = normalized;
      }

      -- What follows the insertion in the `try` block: the counters, then two audit entries.
      abbrev counted : MockRecord js.Num → Tally js.Num → Tally js.Num
      counted r t = record t {
        created_count = t.created_count + 1;
        max_cursor = pick_latest_cursor js t.max_cursor (extract_cursor_candidate js r.raw);
      }

      abbrev log_created : SyncedRecord js.Num → M js.Num (Unit {0})
      log_created row = do
        log_or_throw env "transformation_applied" "sync_run" sync_run_id (actor_id actor)
        log_or_throw env "synced_record_created" "synced_record" row.id (actor_id actor)

      -- The `catch` block, with the counters as they were at the throw.
      abbrev caught : Tally js.Num → Error → M js.Num (Tally js.Num)
      caught t e = pure (record t {
        failed_count = t.failed_count + 1;
        total_error_count = t.total_error_count + 1;
      })

      abbrev created :
          MockRecord js.Num → Tally js.Num → SyncedRecord js.Num → M js.Num (Tally js.Num)
      created r t row = try_catch (log_created row) (λ u. pure (counted r t)) (caught (counted r t))

      -- The loop's body behind the transformation, by the errors that it reported.
      settle_record :
          MockRecord js.Num
          → Tally js.Num
          → Fields js.Num
          → List TransformationErrorDetail
          → M js.Num (Tally js.Num)
      settle_record r t normalized (e ∷ errors) = do
        log_or_throw env "transformation_failed" "sync_run" sync_run_id (actor_id actor)
        pure (record t { failed_count = t.failed_count + 1 })
      settle_record r t normalized [] =
          try_catch (create_synced_record env (synced_row r normalized)) (created r t) (caught t)

      unfoldable pub process_record :
          List (NormalizedMappingField js.Num)
          → Tally js.Num
          → MockRecord js.Num
          → M js.Num (Tally js.Num)
      unfolding settle_record
      process_record fields t r = do
        p ← transform r.raw fields
        settle_record r (record t { total_error_count = t.total_error_count + length p.errors })
            p.normalized p.errors

      unfoldable pub process_records :
          List (NormalizedMappingField js.Num)
          → Tally js.Num
          → List (MockRecord js.Num)
          → M js.Num (Tally js.Num)
      process_records fields t [] = pure t
      process_records fields t (r ∷ rs) =
          process_record fields t r >>= λ t'. process_records fields t' rs

      abbrev keep_cursor : M js.Num (Bool × Option (Json js.Num))
      keep_cursor = do
        log_or_throw env "incremental_cursor_not_advanced" "pipeline" pipeline.id (actor_id actor)
        pure (false, none)

      abbrev store_cursor : Option (Json js.Num) → M js.Num (Bool × Option (Json js.Num))
      store_cursor none = pure (false, none)
      store_cursor (some value) = do
        updated ← update_pipeline pipeline.id (λ p. record p { cursor_json = value })
        log_or_throw env "incremental_cursor_updated" "pipeline" pipeline.id (actor_id actor)
        pure (true, some value)

      abbrev latest_or_keep : Option (Cursor js.Num) → M js.Num (Bool × Option (Json js.Num))
      latest_or_keep none = keep_cursor
      latest_or_keep (some c) = store_cursor (cursor_candidate_to_json js (some c))

      -- The block `if (pipeline.incrementalMode) { ... }`.
      unfoldable pub advance_cursor : Tally js.Num → M js.Num (Bool × Option (Json js.Num))
      advance_cursor t =
          if pipeline.incremental_mode
          then (if nat_eq t.failed_count 0 then latest_or_keep t.max_cursor else keep_cursor)
          else pure (false, none)

      unfoldable pub process_run_records :
          List (MockRecord js.Num) → Bool → M js.Num (RunProcessingSummary js.Num)
      process_run_records mock_records ignore_cursor = do
        fields ← lift (compile_mapping_or_throw pipeline.mapping_json)
        t ← process_records fields no_tally (eligible pipeline ignore_cursor mock_records)
        (advanced, value) ← advance_cursor t
        pure (record {
          records_received = length mock_records;
          records_processed = t.created_count;
          records_failed = t.failed_count;
          error_count = t.total_error_count;
          skipped_by_cursor =
              length mock_records - length (eligible pipeline ignore_cursor mock_records);
          cursor_advanced = advanced;
          cursor_value = value;
        })

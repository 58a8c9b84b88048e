-- ===== src/Tests/Runs.antt =====
-- Runs, queued and immediate, on concrete tables.
use sync_bridge_platform.Base.{
  ℕ, true, false, Option, none, some, List, [], ◌∷◌, ◌≡◌, refl, arith, Result, ok, err, All,
}
use sync_bridge_platform.Js.{Json, Fields, read, own}
use sync_bridge_platform.Transformations.Mapping.{
  NormalizedMappingField, json, compile_mapping, compile_candidate,
}
use sync_bridge_platform.Transformations.Record.{
  transform_record_with_compiled_mapping, transform_field, coerce_value, is_missing_value,
}
use sync_bridge_platform.Paths.{assert_safe_path, get_by_path, set_by_path, walk}
use sync_bridge_platform.Database.{queued, running, user, SyncRun, MockRecord, World, find, manual}
use sync_bridge_platform.Effects.{Error, Env, plain, bad_request}
use sync_bridge_platform.SyncRuns.Cursor.{
  Cursor, eligible_records, extract_cursor_candidate, pick_latest_cursor,
}
use sync_bridge_platform.SyncRuns.Cursor.Laws.{NumberOrder, HasSequence, latest_cursor}
use sync_bridge_platform.SyncRuns.Cursor.Rerun.{IsNextCursor, rerun_processes_nothing}
use sync_bridge_platform.SyncRuns.Tables.{
  Actor, find_pipeline, create_run, create_job, create_synced_record,
}
use sync_bridge_platform.SyncRuns.Records.{
  Tally, RunProcessingSummary, no_tally, transform, process_record, process_records,
  process_run_records, compile_mapping_or_throw,
}
use sync_bridge_platform.SyncRuns.Execute.{
  CreateRunOptions, queue_sync_run, enqueue_execute_sync_run_job, execute_sync_run_now,
}
use sync_bridge_platform.SyncRuns.Execute.Laws.{
  LeftBehind, queue_sync_run_throws, execute_sync_run_now_throws,
}
use sync_bridge_platform.SyncRuns.Worker.{process_queued_sync_run}
use sync_bridge_platform.SyncRuns.Worker.Rows.{Rows}
use sync_bridge_platform.SyncRuns.Worker.Laws.{Settled, process_queued_sync_run_settles}
use sync_bridge_platform.Tests.Data.{
  runtime, broken_queue, pipeline, bad_pipeline, record_of, queued_run, queued_job, payload,
  world_of, no_rows,
}

order : NumberOrder runtime
order = record { irrefl = λ a. ground arith; trans = λ a b c h k. ground arith }

abbrev sequence : ℕ → Option (Cursor ℕ)
sequence n = some (record { sequence = some n; updated_at = none })

abbrev batch : List (MockRecord ℕ)
batch = record_of 3 ∷ record_of 5 ∷ []

latest_is_5 :
    latest_cursor runtime none (eligible_records runtime (sequence 2) true batch) ≡ sequence 5
unfolding latest_cursor eligible_records read pick_latest_cursor
latest_is_5 = refl

numbered : All (HasSequence runtime) batch
unfolding read
numbered = ((3, refl), ((5, refl), tt))

rerun_processes_nothing_example :
    IsNextCursor runtime order (sequence 2) batch (record { sequence = some 5; updated_at = none })
rerun_processes_nothing_example =
    rerun_processes_nothing runtime order (sequence 2) batch
      (record { sequence = some 5; updated_at = none }) (2, refl) numbered latest_is_5

-- The field that the mapping compiles to.
abbrev mail : NormalizedMappingField ℕ
mail = record {
  output_path = "contact.email";
  source_path = "user.mail";
  required = false;
  default_value = none;
  type = json;
  trims = false;
  lowercase = false;
  uppercase = false;
  compute = none;
}

abbrev processed : Result Error (Tally ℕ) × World ℕ
processed =
    process_records runtime broken_queue "r1" pipeline none (mail ∷ []) (no_tally runtime) batch
      (world_of pipeline)

abbrev two_created : Tally ℕ
two_created = record {
  created_count = 2;
  failed_count = 0;
  total_error_count = 0;
  max_cursor = sequence 5;
}

both_created : processed ≡ (ok two_created, processed.1)
unfolding process_records process_record transform transform_record_with_compiled_mapping
    transform_field get_by_path assert_safe_path is_missing_value walk read coerce_value set_by_path
    create_synced_record pick_latest_cursor extract_cursor_candidate
both_created = refl

-- Where no entry of the audit log can be written, each record is stored and counts twice.
abbrev unaudited : Env
unaudited = record broken_queue { audit_error = λ n. some "audit down" }

both_twice :
    (process_records runtime unaudited "r1" pipeline none
      (mail ∷ [])
      (no_tally runtime)
      batch
      (world_of pipeline)).0
    ≡ ok (record two_created { failed_count = 2; total_error_count = 2 })
unfolding process_records process_record transform transform_record_with_compiled_mapping
    transform_field get_by_path assert_safe_path is_missing_value walk read coerce_value set_by_path
    create_synced_record pick_latest_cursor extract_cursor_candidate
both_twice = refl

abbrev ran : Result Error (RunProcessingSummary ℕ) × World ℕ
ran = process_run_records runtime broken_queue "r1" pipeline none batch false (world_of pipeline)

abbrev summary : RunProcessingSummary ℕ
summary = record {
  records_received = 2;
  records_processed = 2;
  records_failed = 0;
  error_count = 0;
  skipped_by_cursor = 0;
  cursor_advanced = true;
  cursor_value = some (Json.obj (Fields.field "sequence" (Json.num 5) Fields.end));
}

rows : Rows "j1" "r1" "p1" (world_of pipeline) queued_job queued_run pipeline
unfolding find
rows = record { job = refl; run = refl; pipeline = refl }

abbrev attempt : Result Error (Unit {0}) × World ℕ
attempt = process_queued_sync_run runtime broken_queue payload 1 (world_of pipeline)

process_queued_sync_run_settles_example :
    Settled runtime broken_queue payload 1
      (world_of pipeline)
      queued_job
      queued_run
      pipeline
      attempt.0
      attempt.1
process_queued_sync_run_settles_example =
    process_queued_sync_run_settles runtime broken_queue payload 1 (world_of pipeline) queued_job
      queued_run pipeline rows

abbrev owner : Actor
owner = record { sub = "owner"; role = user }

abbrev options : CreateRunOptions ℕ
options = record {
  mock_records = batch;
  ignore_cursor = false;
  trigger_type = manual;
  actor = none;
}

abbrev queueing : Result Error SyncRun × World ℕ
queueing = queue_sync_run broken_queue pipeline options no_rows

queue_down : queueing ≡ (err (plain "queue down"), queueing.1)
unfolding queue_sync_run create_run create_job enqueue_execute_sync_run_job
queue_down = refl

queue_sync_run_throws_example : LeftBehind "p1" queued no_rows queueing.1
queue_sync_run_throws_example =
    queue_sync_run_throws broken_queue pipeline options no_rows queueing.1 (plain "queue down")
      queue_down

abbrev executing : Result Error SyncRun × World ℕ
executing = execute_sync_run_now runtime broken_queue bad_pipeline options (world_of bad_pipeline)

abbrev unsafe : Error
unsafe = bad_request ("Path contains unsafe segment: __proto__" ∷ [])

unsafe_mapping : executing ≡ (err unsafe, executing.1)
unfolding execute_sync_run_now create_run process_run_records compile_mapping_or_throw
    compile_mapping compile_candidate own read assert_safe_path
unsafe_mapping = refl

bad_pipeline_found : find_pipeline "p1" (world_of bad_pipeline).pipelines ≡ some bad_pipeline
unfolding find
bad_pipeline_found = refl

execute_sync_run_now_throws_example : LeftBehind "p1" running (world_of bad_pipeline) executing.1
execute_sync_run_now_throws_example =
    execute_sync_run_now_throws runtime broken_queue bad_pipeline bad_pipeline options
      (world_of bad_pipeline) executing.1 unsafe bad_pipeline_found unsafe_mapping

-- ===== src/Tests/Retries.antt =====
-- Messages that are tried again on concrete tables.
use sync_bridge_platform.Base.{ℕ, ◌+◌, ◌≤◌, true, false, [], ◌∷◌, ◌≡◌, refl, arith, Result, err}
use sync_bridge_platform.Js.{read, own}
use sync_bridge_platform.Paths.{assert_safe_path}
use sync_bridge_platform.Database.{World, find, update}
use sync_bridge_platform.Effects.{Error, bad_request}
use sync_bridge_platform.Transformations.Mapping.{compile_mapping, compile_candidate}
use sync_bridge_platform.SyncRuns.Tables.{update_run, update_pipeline, update_job}
use sync_bridge_platform.SyncRuns.Records.{process_run_records, compile_mapping_or_throw}
use sync_bridge_platform.SyncRuns.Execute.{get_by_id}
use sync_bridge_platform.SyncRuns.Worker.{process_queued_sync_run, fail}
use sync_bridge_platform.Jobs.Queue.{QueueSettings, process_sync_run_job, process_webhook_event_job}
use sync_bridge_platform.Jobs.Retries.{first, again, IsEnded, sync_run_tries-IsEnded}
use sync_bridge_platform.Jobs.Retries.Events
use sync_bridge_platform.Jobs.Retries.Events.{LeavesEvent, webhook_event_tries-IsEnded}
use sync_bridge_platform.Tests.Data.{
  runtime, pipeline, bad_pipeline, queued_run, queued_job, payload, broken_queue, world_of,
}
use sync_bridge_platform.Tests.Webhooks.{at_once, shop_world, event_job, event}

abbrev settings : QueueSettings
settings = record {
  is_async_mode = true;
  default_attempts = 3;
  backoff_ms = 5000;
  is_test_env = false;
}

abbrev unsafe : Error
unsafe = bad_request ("Path contains unsafe segment: __proto__" ∷ [])

abbrev try : ℕ → World ℕ → Result Error (Unit {0}) × World ℕ
try made w = process_sync_run_job runtime broken_queue "execute-sync-run" payload made w

-- The mapping is refused at the first try, and somebody repairs it.
abbrev refused : World ℕ
refused = (try 0 (world_of bad_pipeline)).1

abbrev repaired : World ℕ
repaired = record refused { pipelines = pipeline ∷ [] }

refused_first : (try 0 (world_of bad_pipeline)).0 ≡ err unsafe
unfolding process_sync_run_job process_queued_sync_run find get_by_id update update_job update_run
    process_run_records compile_mapping_or_throw compile_mapping compile_candidate own read
    assert_safe_path fail update_pipeline
refused_first = refl

abbrev second : Result Error (Unit {0}) × World ℕ
second = try 1 repaired

sync_run_tries-IsEnded_example :
    IsEnded runtime broken_queue payload 1 second.0 second.1 × (1 + 1 ≤ 3)
unfolding process_sync_run_job process_queued_sync_run find get_by_id update update_job update_run
    process_run_records compile_mapping_or_throw compile_mapping compile_candidate own read
    assert_safe_path fail update_pipeline
sync_run_tries-IsEnded_example =
    sync_run_tries-IsEnded runtime broken_queue payload settings (world_of bad_pipeline)
      (queued_job, queued_run, bad_pipeline, record { job = refl; run = refl; pipeline = refl })
      (again {e = unsafe} repaired (first (omega arith))
        (record {
          left = λ ready. (_, _, pipeline, record { job = refl; run = refl; pipeline = refl });
        })
        (omega arith))

abbrev try_event : ℕ → World ℕ → Result Error (Unit {0}) × World ℕ
try_event made w =
    process_webhook_event_job runtime at_once "process-webhook-event" event_job made w

webhook_event_tries-IsEnded_example :
    Events.IsEnded runtime at_once event_job 0 (try_event 0 shop_world).0 (try_event 0 shop_world).1
    × (0 + 1 ≤ 3)
unfolding find
webhook_event_tries-IsEnded_example =
    webhook_event_tries-IsEnded runtime at_once event_job settings shop_world
      (queued_job, event, record { job = refl; event = refl }) (first (omega arith))

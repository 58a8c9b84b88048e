-- ===== src/Jobs/Queue.antt =====
-- apps/api/src/jobs/jobs.service.ts: the settings of the queues and the probe of Redis; and the processors
-- apps/api/src/workers/sync-run.processor.ts and apps/api/src/workers/webhook-event.processor.ts, whose
-- queue library (a worker of it calls `processJob`) is not modelled.
use sync_bridge_platform.Base.{
  ℕ, ◌+◌, String, Bool, not, ◌&&◌, Option, none, some, ◌==◌, if◌then◌else◌,
}
use sync_bridge_platform.Js.{Js}
use sync_bridge_platform.Database.{ExecuteSyncRunJobPayload, ProcessWebhookEventJobPayload}
use sync_bridge_platform.Effects.{Env, M, pure}
use sync_bridge_platform.Config.{Parsers, NormalizedConfig}
use sync_bridge_platform.SyncRuns.Worker.{process_queued_sync_run}
use sync_bridge_platform.Webhooks.Worker.{process_queued_webhook_event}

pub record QueueSettings : Type 0 where
  pub is_async_mode : Bool
  pub default_attempts : ℕ
  pub backoff_ms : ℕ
  pub is_test_env : Bool

abbrev int_or : Option ℕ → ℕ → ℕ
int_or none fallback = fallback
int_or (some n) fallback = n

-- `getIntConfig`: the fallback where the text is no integer or a negative one.
unfoldable pub get_int_config : Parsers → String → ℕ → ℕ
get_int_config parsers raw fallback = int_or (parsers.integer_of raw) fallback

-- The constructor, on a checked environment.
unfoldable pub queue_settings : Parsers → Js → NormalizedConfig → QueueSettings
unfolding get_int_config
queue_settings parsers js c = record {
  is_async_mode = js.to_lower c.queue_mode == "async";
  default_attempts = get_int_config parsers c.bullmq_default_attempts 3;
  backoff_ms = get_int_config parsers c.bullmq_backoff_ms 5000;
  is_test_env = c.node_env == "test";
}

-- `shouldUseRedisQueueInfrastructure`
unfoldable pub should_use_redis_queue_infrastructure : QueueSettings → Bool
should_use_redis_queue_infrastructure s = s.is_async_mode && not s.is_test_env

pub data RedisStatus : Type 0 where
  skipped unknown up degraded down : RedisStatus

-- What came of the `PING`: its answer, or an error.
pub data Ping : Type 0 where
  answered : String → Ping
  refused : Ping

abbrev status_of : Ping → RedisStatus
status_of (answered pong) = if pong == "PONG" then up else degraded
status_of refused = down

-- `checkRedisHealth`, where the queues were made exactly if the settings call for them.
unfoldable pub check_redis_health : QueueSettings → Ping → RedisStatus
unfolding should_use_redis_queue_infrastructure
check_redis_health s ping =
    if not s.is_async_mode
    then skipped
    else if should_use_redis_queue_infrastructure s
    then status_of ping
    else unknown

-- A job as the queue library hands it over; `name` and `attempts_made` are its fields.
module _ (js : Js) (env : Env) where
  -- `SyncRunProcessor.processJob`
  unfoldable pub process_sync_run_job :
      String → ExecuteSyncRunJobPayload js.Num → ℕ → M js.Num (Unit {0})
  process_sync_run_job name payload attempts_made =
      if name == "execute-sync-run"
      then process_queued_sync_run js env payload (attempts_made + 1)
      else pure tt

  -- `WebhookEventProcessor.processJob`
  unfoldable pub process_webhook_event_job :
      String → ProcessWebhookEventJobPayload → ℕ → M js.Num (Unit {0})
  process_webhook_event_job name payload attempts_made =
      if name == "process-webhook-event"
      then process_queued_webhook_event js env payload (attempts_made + 1)
      else pure tt

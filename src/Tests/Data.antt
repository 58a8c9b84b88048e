-- ===== src/Tests/Data.antt =====
-- A small runtime for the tests: numbers and dates are natural numbers. And a pipeline with its tables.
use Prim.Native.String
use sync_bridge_platform.Base.{
  ℕ, zero, suc, String, true, false, none, some, [], ◌∷◌, ok, ltb, nat_eq, Result,
}
use sync_bridge_platform.Js.{Js, Json, Fields, Unknown, end, field, num, str, given}
use sync_bridge_platform.Effects.{Env}
use sync_bridge_platform.Database.{
  active, operator, queued, sync_run, manual, SyncPipeline, SyncRun, BackgroundJob, MockRecord,
  ExecuteSyncRunJobPayload, World,
}

abbrev text_of : Unknown ℕ → Result String String
text_of (given (str s)) = ok s
text_of _ = ok "?"

abbrev pub runtime : Js
runtime = record {
  Num = ℕ;
  Time = ℕ;
  zero_num = 0;
  one_num = 1;
  num_eq = nat_eq;
  num_lt = ltb;
  is_nan = λ n. false;
  is_finite = λ n. true;
  to_number = λ s. 7;
  to_text = text_of;
  json_bytes = λ fs. 2;
  to_lower = λ s. s;
  to_upper = λ s. s;
  parse_date = λ s. none;
  date_of_number = λ n. some n;
  to_iso = λ t. "2026-01-01T00:00:00.000Z";
  time_lt = ltb;
}

abbrev pub nth_id : ℕ → String
nth_id zero = "id"
nth_id (suc n) = String.◌++◌ "i" (nth_id n)

-- Where the messages of the queue fail to be added.
abbrev pub broken_queue : Env
broken_queue = record {
  uuid = nth_id;
  clock = λ n. n;
  computed = λ mode n. "computed";
  insert_fails = λ n. false;
  audit_error = λ n. none;
  is_async_mode = true;
  has_queue = true;
  add_error = λ n. some "queue down";
}

abbrev pub mapping : Fields ℕ
mapping = field "contact.email" (str "user.mail") end

abbrev pub pipeline_with : Fields ℕ → SyncPipeline ℕ
pipeline_with mapping' = record {
  id = "p1";
  name = "Customers";
  description = none;
  source_connector_id = "c1";
  target_name = "crm";
  status = active;
  mapping_json = mapping';
  schedule_enabled = false;
  schedule_cron = none;
  schedule_timezone = none;
  next_run_at = none;
  last_run_at = none;
  cursor_json = Json.null;
  incremental_mode = true;
  owner_id = "owner";
}

abbrev pub pipeline : SyncPipeline ℕ
pipeline = pipeline_with mapping

-- A mapping that no run accepts.
abbrev pub bad_pipeline : SyncPipeline ℕ
bad_pipeline = pipeline_with (field "__proto__.x" (str "user.mail") end)

abbrev pub raw : ℕ → Fields ℕ
raw n = field "user" (Json.obj (field "mail" (str "a@b") end)) (field "sequence" (num n) end)

abbrev pub record_of : ℕ → MockRecord ℕ
record_of n = record { external_id = none; raw = raw n }

abbrev pub queued_run : SyncRun
queued_run = record {
  id = "r1";
  pipeline_id = "p1";
  status = queued;
  trigger_type = manual;
  records_received = 0;
  records_processed = 0;
  records_failed = 0;
  error_message = none;
  started_at = none;
  finished_at = none;
}

abbrev pub queued_job : BackgroundJob
queued_job = record {
  id = "j1";
  type = sync_run;
  status = queued;
  entity_type = "sync_run";
  entity_id = "r1";
  attempts = 0;
  last_error = none;
  started_at = none;
  finished_at = none;
  duration_ms = none;
}

abbrev pub payload : ExecuteSyncRunJobPayload ℕ
payload = record {
  background_job_id = "j1";
  sync_run_id = "r1";
  pipeline_id = "p1";
  requested_by_user_id = "owner";
  requested_by_role = operator;
  mock_records = record_of 3 ∷ record_of 5 ∷ [];
  ignore_cursor = false;
  trigger_type = manual;
}

abbrev pub world_of : SyncPipeline ℕ → World ℕ
world_of p = record {
  pipelines = p ∷ [];
  sync_runs = queued_run ∷ [];
  background_jobs = queued_job ∷ [];
  synced_records = [];
  audit_logs = [];
  queue = [];
  connectors = [];
  webhook_events = [];
  webhook_queue = [];
  users = [];
  refresh_tokens = [];
  ticks = 0;
}

abbrev pub no_rows : World ℕ
no_rows = record {
  pipelines = [];
  sync_runs = [];
  background_jobs = [];
  synced_records = [];
  audit_logs = [];
  queue = [];
  connectors = [];
  webhook_events = [];
  webhook_queue = [];
  users = [];
  refresh_tokens = [];
  ticks = 0;
}

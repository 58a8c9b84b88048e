-- ===== src/Database.antt =====
-- The tables (apps/api/prisma/schema.prisma) and the operations on them that the services call, as
-- the repository's own stand-in for the client carries them out (apps/api/test/in-memory-prisma.ts):
-- a table is the list of its rows in order of creation, an update of a row that is not there throws.
-- Ids are texts, points in time are milliseconds since 1970.
pub mod Laws
use sync_bridge_platform.Base.{
  ℕ, String, Bool, true, false, Option, none, some, List, [], ◌∷◌, ◌==◌, if◌then◌else◌,
}
use sync_bridge_platform.Js.{Json, Fields}

pub data UserRole : Type 0 where
  user operator admin : UserRole

pub data PipelineStatus : Type 0 where
  active paused archived : PipelineStatus

pub data SyncRunStatus : Type 0 where
  queued running success failed cancelled : SyncRunStatus

pub data SyncRunTriggerType : Type 0 where
  manual webhook scheduled : SyncRunTriggerType

pub data BackgroundJobType : Type 0 where
  sync_run webhook_processing : BackgroundJobType

pub data BackgroundJobStatus : Type 0 where
  queued processing completed failed : BackgroundJobStatus

pub data ConnectorStatus : Type 0 where
  active paused error : ConnectorStatus

pub data ConnectorType : Type 0 where
  rest_api webhook csv_upload json_upload database google_sheets one_c_export manual : ConnectorType

pub data WebhookEventStatus : Type 0 where
  received processed failed ignored : WebhookEventStatus

-- The columns `createdAt` and `updatedAt` are left out; the order of the rows stands for the times of
-- creation.
pub record Connector (N : Type 0) : Type 0 where
  pub id : String
  pub name : String
  pub type : ConnectorType
  pub status : ConnectorStatus
  pub config_json : Fields N
  pub owner_id : String

pub record WebhookEvent (N : Type 0) : Type 0 where
  pub id : String
  pub source_connector_ref : String
  pub connector_id : Option String
  pub idempotency_key : Option String
  pub event_type : String
  pub status : WebhookEventStatus
  pub payload_json : Fields N
  pub headers_json : Fields N
  pub processed_at : Option ℕ
  pub error_message : Option String

pub record User : Type 0 where
  pub id : String
  pub email : String
  pub password_hash : String
  pub full_name : String
  pub role : UserRole

pub record RefreshToken : Type 0 where
  pub id : String
  pub user_id : String
  pub token_hash : String
  pub expires_at : ℕ
  pub revoked_at : Option ℕ

pub record SyncPipeline (N : Type 0) : Type 0 where
  pub id : String
  pub name : String
  pub description : Option String
  pub source_connector_id : String
  pub target_name : String
  pub status : PipelineStatus
  pub mapping_json : Fields N
  pub schedule_enabled : Bool
  pub schedule_cron : Option String
  pub schedule_timezone : Option String
  pub next_run_at : Option ℕ
  pub last_run_at : Option ℕ
  -- `null` where the column is empty
  pub cursor_json : Json N
  pub incremental_mode : Bool
  pub owner_id : String

pub record SyncRun : Type 0 where
  pub id : String
  pub pipeline_id : String
  pub status : SyncRunStatus
  pub trigger_type : SyncRunTriggerType
  pub records_received : ℕ
  pub records_processed : ℕ
  pub records_failed : ℕ
  pub error_message : Option String
  pub started_at : Option ℕ
  pub finished_at : Option ℕ

-- The column `metadataJson`, which only reports read, is left out here and in the audit log.
pub record BackgroundJob : Type 0 where
  pub id : String
  pub type : BackgroundJobType
  pub status : BackgroundJobStatus
  pub entity_type : String
  pub entity_id : String
  pub attempts : ℕ
  pub last_error : Option String
  pub started_at : Option ℕ
  pub finished_at : Option ℕ
  pub duration_ms : Option ℕ

pub record SyncedRecord (N : Type 0) : Type 0 where
  pub id : String
  pub pipeline_id : String
  pub sync_run_id : Option String
  pub external_id : Option String
  pub source_type : String
  pub raw_json : Fields N
  pub normalized_json : Fields N

pub record AuditLog : Type 0 where
  pub actor_id : Option String
  pub action : String
  pub entity_type : String
  pub entity_id : String

-- `SyncRunMockRecordPayload`; the DTO admits only objects for `raw`.
pub record MockRecord (N : Type 0) : Type 0 where
  pub external_id : Option String
  pub raw : Fields N

pub record ExecuteSyncRunJobPayload (N : Type 0) : Type 0 where
  pub background_job_id : String
  pub sync_run_id : String
  pub pipeline_id : String
  pub requested_by_user_id : String
  pub requested_by_role : UserRole
  pub mock_records : List (MockRecord N)
  pub ignore_cursor : Bool
  pub trigger_type : SyncRunTriggerType

pub record ProcessWebhookEventJobPayload : Type 0 where
  pub background_job_id : String
  pub webhook_event_id : String
  pub requested_by_user_id : Option String
  pub requested_by_role : Option UserRole

-- The tables, the queues of the workers, and how often the process has asked its surroundings for
-- something new: an id, the time, a computed value, an insertion.
pub record World (N : Type 0) : Type 0 where
  pub pipelines : List (SyncPipeline N)
  pub sync_runs : List SyncRun
  pub background_jobs : List BackgroundJob
  pub synced_records : List (SyncedRecord N)
  pub audit_logs : List AuditLog
  pub queue : List (ExecuteSyncRunJobPayload N)
  pub connectors : List (Connector N)
  pub webhook_events : List (WebhookEvent N)
  pub webhook_queue : List ProcessWebhookEventJobPayload
  pub users : List User
  pub refresh_tokens : List RefreshToken
  pub ticks : ℕ

module _ {R : Type 0} (id_of : R → String) where
  -- `findUnique({ where: { id } })`
  unfoldable pub find : String → List R → Option R
  find id [] = none
  find id (row ∷ rows) = if id_of row == id then some row else find id rows

  -- `this.rows[index] = { ...this.rows[index], ...data }`
  unfoldable pub update : String → (R → R) → List R → List R
  update id change [] = []
  update id change (row ∷ rows) =
      if id_of row == id then change row ∷ rows else row ∷ update id change rows

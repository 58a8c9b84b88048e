-- ===== src/Pipelines.antt =====
-- apps/api/src/pipelines/pipelines.service.ts: pipelines are created, changed and tried out. `getById` and
-- `findOne` stand in SyncRuns/Execute, `compileMappingOrThrow` in SyncRuns/Records. The DTOs come
-- validated.
pub mod Runnable
pub mod Laws
pub mod DryRun
use sync_bridge_platform.Base.{
  ℕ, suc, ◌-◌, String, Bool, true, false, not, ◌&&◌, Option, none, some, List, [], ◌∷◌, ◌++◌, ◌==◌,
  ok, err, keep, length, latest_first, trim, present, or_else, if◌then◌else◌,
}
use sync_bridge_platform.Js.{Js, Json, Fields}
use sync_bridge_platform.Database.{
  active, paused, archived, SyncPipeline, PipelineStatus, MockRecord, World,
}
use sync_bridge_platform.Effects.{
  forbidden, bad_request, Env, M, pure, lift, throw_if, log, ◌>>=◌, ◌>>◌,
}
use sync_bridge_platform.Transformations.Errors.{TransformationErrorDetail}
use sync_bridge_platform.Transformations.Mapping.{NormalizedMappingField, validate_mapping}
use sync_bridge_platform.SyncRuns.Tables.{Actor, update_pipeline}
use sync_bridge_platform.SyncRuns.Records.{compile_mapping_or_throw, transform}
use sync_bridge_platform.SyncRuns.Execute.{is_privileged, find_one}
use sync_bridge_platform.Connectors.{get_connector, trimmed_or}

pub record CreatePipelineDto (N : Type 0) : Type 0 where
  pub name : String
  pub description : Option String
  pub source_connector_id : String
  pub target_name : String
  pub mapping_json : Fields N

-- `description` may be left out, and it may be `null`.
pub record UpdatePipelineDto (N : Type 0) : Type 0 where
  pub name : Option String
  pub description : Option (Option String)
  pub source_connector_id : Option String
  pub target_name : Option String
  pub mapping_json : Option (Fields N)
  pub status : Option PipelineStatus

-- `description?.trim() ?? null`
abbrev pub trimmed : Option String → Option String
trimmed none = none
trimmed (some text) = some (trim text)

abbrev trimmed_or_kept : Option (Option String) → Option String → Option String
trimmed_or_kept none kept = kept
trimmed_or_kept (some description) kept = trimmed description

abbrev same_status : PipelineStatus → PipelineStatus → Bool
same_status active active = true
same_status paused paused = true
same_status archived archived = true
same_status _ _ = false

-- `dto.status && dto.status !== existing.status`
abbrev pub changes : Option PipelineStatus → PipelineStatus → Bool
changes none status = false
changes (some next) status = not (same_status next status)

module _ {N : Type 0} where
  -- `prisma.syncPipeline.create`
  unfoldable pub create_pipeline_row : Env → (String → SyncPipeline N) → M N (SyncPipeline N)
  create_pipeline_row env row w =
      let made = row (env.uuid w.ticks) in
      (ok made, record w { pipelines = w.pipelines ++ made ∷ []; ticks = suc w.ticks })

  -- `findAll`, which only reads.
  unfoldable pub find_pipelines : Actor → World N → List (SyncPipeline N)
  find_pipelines caller w = latest_first (
      if is_privileged caller.role
      then w.pipelines
      else keep (λ p. p.owner_id == caller.sub) w.pipelines)

  -- A connector that a pipeline of the caller may name.
  unfoldable pub assert_own_connector : String → Actor → M N (Unit {0})
  assert_own_connector connector_id caller = do
    connector ← get_connector connector_id
    throw_if (not (is_privileged caller.role) && not (connector.owner_id == caller.sub))
        (forbidden "You can only use your own connector")

  abbrev pub assert_own_if_given : Option String → Actor → M N (Unit {0})
  assert_own_if_given none caller = pure tt
  assert_own_if_given (some connector_id) caller = assert_own_connector connector_id caller

  abbrev pub new_pipeline : CreatePipelineDto N → String → String → SyncPipeline N
  new_pipeline dto owner_id id = record {
    id = id;
    name = trim dto.name;
    description = trimmed dto.description;
    source_connector_id = dto.source_connector_id;
    target_name = trim dto.target_name;
    status = active;
    mapping_json = dto.mapping_json;
    schedule_enabled = false;
    schedule_cron = none;
    schedule_timezone = none;
    next_run_at = none;
    last_run_at = none;
    cursor_json = Json.null;
    incremental_mode = false;
    owner_id = owner_id;
  }

  abbrev pub updated_pipeline : UpdatePipelineDto N → SyncPipeline N → SyncPipeline N
  updated_pipeline dto p = record p {
    name = trimmed_or dto.name p.name;
    description = trimmed_or_kept dto.description p.description;
    source_connector_id = or_else (present dto.source_connector_id) p.source_connector_id;
    target_name = trimmed_or dto.target_name p.target_name;
    mapping_json = or_else dto.mapping_json p.mapping_json;
    status = or_else dto.status p.status;
  }

  abbrev pub log_if : Bool → String → String → M N (Unit {0})
  log_if true id sub = log "pipeline_status_updated" "pipeline" id (some sub)
  log_if false id sub = pure tt

  -- `updateStatus`
  unfoldable pub update_pipeline_status : String → PipelineStatus → Actor → M N (SyncPipeline N)
  update_pipeline_status id status caller = do
    p ← find_one id caller
    updated ← update_pipeline id (λ q. record q { status = status })
    log "pipeline_status_updated" "pipeline" p.id (some caller.sub)
    pure updated

module _ (js : Js) where
  unfoldable pub assert_valid_mapping : Fields js.Num → M js.Num (Unit {0})
  assert_valid_mapping mapping_json =
      let result = validate_mapping js mapping_json in
      throw_if (not result.valid) (bad_request result.errors)

  abbrev pub assert_valid_if_given : Option (Fields js.Num) → M js.Num (Unit {0})
  assert_valid_if_given none = pure tt
  assert_valid_if_given (some mapping_json) = assert_valid_mapping mapping_json

  -- `create`
  unfoldable pub create_pipeline :
      Env → CreatePipelineDto js.Num → Actor → M js.Num (SyncPipeline js.Num)
  create_pipeline env dto caller = do
    assert_valid_mapping dto.mapping_json
    assert_own_connector dto.source_connector_id caller
    p ← create_pipeline_row env (new_pipeline dto caller.sub)
    log "pipeline_created" "pipeline" p.id (some caller.sub)
    pure p

  -- `update`
  unfoldable pub change_pipeline :
      String → UpdatePipelineDto js.Num → Actor → M js.Num (SyncPipeline js.Num)
  change_pipeline id dto caller = do
    existing ← find_one id caller
    assert_valid_if_given dto.mapping_json
    assert_own_if_given (present dto.source_connector_id) caller
    updated ← update_pipeline id (updated_pipeline dto)
    log_if (changes dto.status existing.status) existing.id caller.sub
    pure updated

  pub record PreviewResult : Type 0 where
    pub external_id : Option String
    pub raw : Fields js.Num
    pub normalized : Fields js.Num
    pub errors : List TransformationErrorDetail

  pub record Preview : Type 0 where
    pub pipeline_id : String
    pub results : List PreviewResult
    pub records_received : ℕ
    pub records_valid : ℕ
    pub records_invalid : ℕ

  -- `item.errors.length > 0`
  abbrev pub is_invalid : PreviewResult → Bool
  is_invalid item = elim (item.errors) [ [] ↦ false | e ∷ errors ↦ true ]

  -- `records.map(...)`
  unfoldable pub preview_records :
      Env
      → List (NormalizedMappingField js.Num)
      → List (MockRecord js.Num)
      → M js.Num (List PreviewResult)
  preview_records env fields [] = pure []
  preview_records env fields (r ∷ records) = do
    transformed ← transform js env r.raw fields
    results ← preview_records env fields records
    pure (
        record {
          external_id = r.external_id;
          raw = r.raw;
          normalized = transformed.normalized;
          errors = transformed.errors;
        }
        ∷ results)

  unfoldable pub preview_transformation :
      Env → String → List (MockRecord js.Num) → Actor → M js.Num Preview
  preview_transformation env pipeline_id records caller = do
    p ← find_one pipeline_id caller
    fields ← lift (compile_mapping_or_throw js p.mapping_json)
    results ← preview_records env fields records
    let records_invalid = length (keep is_invalid results)
    log "transformation_preview_run" "pipeline" p.id (some caller.sub)
    pure (record {
      pipeline_id = p.id;
      results = results;
      records_received = length records;
      records_valid = length records - records_invalid;
      records_invalid = records_invalid;
    })

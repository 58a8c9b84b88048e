-- ===== src/Tests/Pipelines.antt =====
-- Connectors and pipelines that are made, changed and tried out.
use sync_bridge_platform.Base.{
  ℕ, String, true, none, some, [], ◌∷◌, map, ◌≡◌, refl, ◌↔◌, trim, split,
}
use sync_bridge_platform.Js.{Json, end, field, str, arr, obj, nil, cons, own, read, truthy}
use sync_bridge_platform.Paths.{assert_safe_path, split_path}
use sync_bridge_platform.Database.{rest_api, paused, operator, World, find, update}
use sync_bridge_platform.Effects.Frame.{Returns, none_yet, next}
use sync_bridge_platform.Transformations.Mapping.{
  compile_mapping, compile_candidate, validate_mapping, compile_candidates, compile_definition,
  compile_shorthand, compute_mode, supported_type,
}
use sync_bridge_platform.SyncRuns.Tables.{Actor, update_pipeline}
use sync_bridge_platform.SyncRuns.Execute.{find_one, get_by_id, is_privileged}
use sync_bridge_platform.Connectors.Policy.{
  has_forbidden_config_keys, normalize_key, letters_and_digits, includes, starts_with, is_forbidden,
}
use sync_bridge_platform.Connectors.Policy.Laws.{Names, has_forbidden_config_keys-iff_names}
use sync_bridge_platform.Connectors.{
  CreateConnectorDto, UpdateConnectorDto, create_connector, update_connector,
  update_connector_status, get_connector, assert_safe_config, create_connector_row,
  update_connector_row, find_connector_for,
}
use sync_bridge_platform.Connectors.Laws as OfConnectors
use sync_bridge_platform.Connectors.Laws.{HasSafeConnectors, connectors_stay_safe}
use sync_bridge_platform.Pipelines.{
  CreatePipelineDto, UpdatePipelineDto, create_pipeline, change_pipeline, preview_transformation,
  assert_valid_mapping, assert_own_connector, create_pipeline_row,
}
use sync_bridge_platform.Pipelines.Laws as OfPipelines
use sync_bridge_platform.Pipelines.Runnable.{HasRunnablePipelines}
use sync_bridge_platform.Pipelines.Laws.{pipelines_stay_runnable}
use sync_bridge_platform.Pipelines.DryRun.{IsDryRun, preview_transformation-IsDryRun}
use sync_bridge_platform.Tests.Data.{
  runtime, pipeline, mapping, record_of, broken_queue, world_of, no_rows,
}

abbrev hidden_token : Json ℕ
hidden_token = obj (field "hosts" (arr (cons (obj (field "accesstoken" (str "x") end)) nil)) end)

has_forbidden_config_keys-iff_names_example :
    (has_forbidden_config_keys runtime hidden_token ≡ true)
    ↔ ((key : String) × Names key hidden_token × (is_forbidden runtime key ≡ true))
has_forbidden_config_keys-iff_names_example =
    has_forbidden_config_keys-iff_names runtime hidden_token

abbrev owner : Actor
owner = record { sub = "owner"; role = operator }

abbrev shop_dto : CreateConnectorDto ℕ
shop_dto = record {
  name = "Shop";
  type = rest_api;
  config_json = field "url" (str "https://shop") end;
}

-- An update that the policy refuses.
abbrev token_dto : UpdateConnectorDto ℕ
token_dto = record {
  name = some "Shop 2";
  status = none;
  config_json = some (field "token" (str "x") end);
}

abbrev with_shop : World ℕ
with_shop = (create_connector runtime broken_queue shop_dto owner no_rows).1

abbrev with_refused_token : World ℕ
with_refused_token = (update_connector runtime "id" token_dto owner with_shop).1

abbrev with_paused_shop : World ℕ
with_paused_shop = (update_connector_status "id" paused owner with_refused_token).1

connectors_stay_safe_example : HasSafeConnectors runtime with_paused_shop
connectors_stay_safe_example =
    connectors_stay_safe runtime
      (next
        (next (next none_yet (OfConnectors.creating broken_queue shop_dto owner))
          (OfConnectors.updating "id" token_dto owner))
        (OfConnectors.changing_status "id" paused owner))
      tt

preview_transformation-IsDryRun_example :
    Returns (IsDryRun runtime broken_queue "p1" (record_of 3 ∷ []) owner (world_of pipeline)) (
      preview_transformation runtime broken_queue "p1" (record_of 3 ∷ []) owner (world_of pipeline))
preview_transformation-IsDryRun_example =
    preview_transformation-IsDryRun runtime broken_queue "p1" (record_of 3 ∷ []) owner
      (world_of pipeline)

abbrev crm_dto : CreatePipelineDto ℕ
crm_dto = record {
  name = "Customers";
  description = none;
  source_connector_id = "id";
  target_name = "crm";
  mapping_json = mapping;
}

-- An update to a connector that is not there.
abbrev elsewhere_dto : UpdatePipelineDto ℕ
elsewhere_dto = record {
  name = none;
  description = some (some "All of them");
  source_connector_id = some "c9";
  target_name = none;
  mapping_json = none;
  status = none;
}

abbrev with_pipeline : World ℕ
with_pipeline = (create_pipeline runtime broken_queue crm_dto owner with_shop).1

abbrev with_refused_change : World ℕ
with_refused_change = (change_pipeline runtime "iid" elsewhere_dto owner with_pipeline).1

pipelines_stay_runnable_example : HasRunnablePipelines runtime with_refused_change
pipelines_stay_runnable_example =
    pipelines_stay_runnable runtime
      (next
        (next (next none_yet (OfPipelines.creating_connector broken_queue shop_dto owner))
          (OfPipelines.creating broken_queue crm_dto owner))
        (OfPipelines.changing "iid" elsewhere_dto owner))
      tt

-- The pipeline was made, and the refused calls changed nothing.
rows_made :
    (map (λ p. p.source_connector_id) with_refused_change.pipelines ≡ "id" ∷ [])
    × (map (λ c. c.name) with_refused_token.connectors ≡ "Shop" ∷ [])
unfolding create_connector change_pipeline find_one get_by_id find create_pipeline
    assert_valid_mapping validate_mapping read compile_candidate assert_safe_path
    assert_own_connector get_connector assert_safe_config has_forbidden_config_keys includes
    normalize_key create_connector_row split trim letters_and_digits starts_with update own truthy
    split_path create_pipeline_row is_privileged update_pipeline compile_candidates
    compile_definition compile_mapping compile_shorthand compute_mode supported_type
    update_connector update_connector_row find_connector_for
rows_made = (refl, refl)

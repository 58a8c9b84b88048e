-- ===== src/Pipelines/Laws.antt =====
-- What the handlers of apps/api/src/pipelines/pipelines.service.ts and
-- apps/api/src/connectors/connectors.service.ts keep of the pipelines: a mapping that compiles, and a
-- connector that is there.
use sync_bridge_platform.Base.{
  String, Bool, true, false, Option, none, some, [], ◌∷◌, refl, or_else-keeps, present, All-mono,
  All-append,
}
use sync_bridge_platform.Js.{Js, Fields, obj}
use sync_bridge_platform.Database.{Connector, ConnectorStatus, SyncPipeline, PipelineStatus, World}
use sync_bridge_platform.Database.Laws.{Found, Found-append}
use sync_bridge_platform.Effects.{bad_request, Env, pure, ◌>>◌}
use sync_bridge_platform.Effects.Frame.{
  Keeps, Keeps-bind, Keeps-then, Keeps-continue, Keeps-throw_if, kept_by_reads, Steps, Steps-Rel,
}
use sync_bridge_platform.SyncRuns.Tables.{Actor, update_pipeline}
use sync_bridge_platform.SyncRuns.Execute.{find_one}
use sync_bridge_platform.Connectors
use sync_bridge_platform.Connectors.Policy.{has_forbidden_config_keys}
use sync_bridge_platform.Connectors.{
  connector_secret_policy_error, updated_connector, assert_safe_if_given, CreateConnectorDto,
  UpdateConnectorDto, create_connector_row, update_connector_row, get_connector, find_connector_for,
  assert_safe_config, update_connector_status, create_connector, update_connector,
}
use sync_bridge_platform.Connectors.Laws.{find_connector_for-reads}
use sync_bridge_platform.Pipelines.{
  CreatePipelineDto, UpdatePipelineDto, changes, log_if, create_pipeline_row, updated_pipeline,
  update_pipeline_status, create_pipeline, change_pipeline,
}
use sync_bridge_platform.Pipelines.Runnable.{
  find_one-reads, runnable, KeepRunnable, IsRunnable, HasRunnablePipelines, IsValid,
  update_pipeline-runnable, update_connector_row-runnable, assert_valid_if_given-runnable,
  assert_own_if_given-runnable,
}

module _ (js : Js) where
  log_change-runnable :
      (changed : Bool) (id sub : String) (p : SyncPipeline js.Num)
      → Keeps (runnable js) (log_if changed id sub >> pure p)
  log_change-runnable true id sub p w = record { kept = λ h. h }
  log_change-runnable false id sub p w = record { kept = λ h. h }

  create_pipeline-runnable :
      (env : Env) (dto : CreatePipelineDto js.Num) (caller : Actor)
      → Keeps (runnable js) (create_pipeline js env dto caller)
  unfolding create_pipeline create_pipeline_row
  create_pipeline-runnable env dto caller =
      assert_valid_if_given-runnable js (some dto.mapping_json) _ (λ valid.
        assert_own_if_given-runnable js (some dto.source_connector_id) caller _ (λ w there. record {
          kept = λ before. All-append (IsRunnable js w.connectors) w.pipelines _ before (
            record {
              valid = valid dto.mapping_json refl;
              connected = there dto.source_connector_id refl;
            },
            tt,
          );
        }))

  change_pipeline-runnable :
      (id : String) (dto : UpdatePipelineDto js.Num) (caller : Actor)
      → Keeps (runnable js) (change_pipeline js id dto caller)
  unfolding change_pipeline
  change_pipeline-runnable id dto caller =
      Keeps-bind (runnable js) (find_one id caller) _
        (kept_by_reads (runnable js) (find_one id caller) (find_one-reads id caller))
        (λ existing. assert_valid_if_given-runnable js dto.mapping_json _ (λ valid.
          assert_own_if_given-runnable js (present dto.source_connector_id) caller _ (λ w there.
            Keeps-continue (runnable js) (update_pipeline id (updated_pipeline dto) w).0 _
              (update_pipeline-runnable js id (updated_pipeline dto) w (λ p r. record {
                valid = or_else-keeps (IsValid js) dto.mapping_json p.mapping_json valid r.valid;
                connected =
                    or_else-keeps (λ k. Found (λ c. c.id) k w.connectors)
                      (present dto.source_connector_id) p.source_connector_id there r.connected;
              }))
              (λ updated.
                log_change-runnable (changes dto.status existing.status) existing.id caller.sub
                  updated _))))

  update_pipeline_status-runnable :
      (id : String) (status : PipelineStatus) (caller : Actor)
      → Keeps (runnable js) (update_pipeline_status id status caller)
  unfolding update_pipeline_status
  update_pipeline_status-runnable id status caller =
      Keeps-bind (runnable js) (find_one id caller) _
        (kept_by_reads (runnable js) (find_one id caller) (find_one-reads id caller))
        (λ p w.
          let change : SyncPipeline js.Num → SyncPipeline js.Num =
            λ q. record q { status = status } in
          Keeps-continue (runnable js) (update_pipeline id change w).0 _
            (update_pipeline-runnable js id change w
              (λ q r. record { valid = r.valid; connected = r.connected }))
            (λ updated. log_change-runnable true p.id caller.sub updated _))

  create_connector-runnable :
      (env : Env) (dto : CreateConnectorDto js.Num) (caller : Actor)
      → Keeps (runnable js) (create_connector js env dto caller)
  unfolding create_connector assert_safe_config create_connector_row
  create_connector-runnable env dto caller =
      Keeps-then (runnable js) (assert_safe_config js dto.config_json) _
        (Keeps-throw_if (runnable js) (has_forbidden_config_keys js (obj dto.config_json))
          (bad_request (connector_secret_policy_error ∷ [])))
        (λ w. record {
          kept = All-mono w.pipelines (λ p r. record {
            valid = r.valid;
            connected = Found-append (λ c. c.id) p.source_connector_id w.connectors _ r.connected;
          });
        })

  assert_safe_if_given-runnable :
      (given : Option (Fields js.Num)) → Keeps (runnable js) (assert_safe_if_given js given)
  unfolding assert_safe_config
  assert_safe_if_given-runnable none w = record { kept = λ h. h }
  assert_safe_if_given-runnable (some config_json) w =
      Keeps-throw_if (runnable js) (has_forbidden_config_keys js (obj config_json))
        (bad_request (connector_secret_policy_error ∷ [])) w

  log_connector-runnable :
      (changed : Bool) (id sub : String) (c : Connector js.Num)
      → Keeps (runnable js) (Connectors.log_if changed id sub >> pure c)
  log_connector-runnable true id sub c w = record { kept = λ h. h }
  log_connector-runnable false id sub c w = record { kept = λ h. h }

  update_connector-runnable :
      (id : String) (dto : UpdateConnectorDto js.Num) (caller : Actor)
      → Keeps (runnable js) (update_connector js id dto caller)
  unfolding update_connector
  update_connector-runnable id dto caller =
      Keeps-bind (runnable js) (find_connector_for id caller) _
        (kept_by_reads (runnable js) (find_connector_for id caller)
          (find_connector_for-reads id caller))
        (λ c.
          Keeps-then (runnable js) (assert_safe_if_given js dto.config_json) _
            (assert_safe_if_given-runnable dto.config_json)
            (Keeps-bind (runnable js) (update_connector_row id (updated_connector dto)) _
              (update_connector_row-runnable js id (updated_connector dto) (λ q. refl))
              (λ updated.
                log_connector-runnable (Connectors.changes dto.status c.status) c.id caller.sub
                  updated)))

  update_connector_status-runnable :
      (id : String) (status : ConnectorStatus) (caller : Actor)
      → Keeps (runnable js) (update_connector_status id status caller)
  unfolding update_connector_status
  update_connector_status-runnable id status caller =
      Keeps-bind (runnable js) (find_connector_for id caller) _
        (kept_by_reads (runnable js) (find_connector_for id caller)
          (find_connector_for-reads id caller))
        (λ c.
          Keeps-bind (runnable js) (update_connector_row id (λ q. record q { status = status })) _
            (update_connector_row-runnable js id _ (λ q. refl))
            (λ updated. log_connector-runnable true c.id caller.sub updated))

  -- A call of one of the two services, from any tables, and the tables behind it.
  pub data Call (w : World js.Num) : World js.Num → Type 0 where
    creating :
        (env : Env) (dto : CreatePipelineDto js.Num) (caller : Actor)
        → Call w (create_pipeline js env dto caller w).1
    changing :
        (id : String) (dto : UpdatePipelineDto js.Num) (caller : Actor)
        → Call w (change_pipeline js id dto caller w).1
    changing_status :
        (id : String) (status : PipelineStatus) (caller : Actor)
        → Call w (update_pipeline_status id status caller w).1
    creating_connector :
        (env : Env) (dto : CreateConnectorDto js.Num) (caller : Actor)
        → Call w (create_connector js env dto caller w).1
    changing_connector :
        (id : String) (dto : UpdateConnectorDto js.Num) (caller : Actor)
        → Call w (update_connector js id dto caller w).1
    changing_connector_status :
        (id : String) (status : ConnectorStatus) (caller : Actor)
        → Call w (update_connector_status id status caller w).1

  Call-runnable : (v w : World js.Num) → Call v w → KeepRunnable js v w
  Call-runnable v w (creating env dto caller) = create_pipeline-runnable env dto caller v
  Call-runnable v w (changing id dto caller) = change_pipeline-runnable id dto caller v
  Call-runnable v w (changing_status id status caller) =
      update_pipeline_status-runnable id status caller v
  Call-runnable v w (creating_connector env dto caller) = create_connector-runnable env dto caller v
  Call-runnable v w (changing_connector id dto caller) = update_connector-runnable id dto caller v
  Call-runnable v w (changing_connector_status id status caller) =
      update_connector_status-runnable id status caller v

  -- If every pipeline in the table has a valid mapping and a connector that is in the table, every one has
  -- both after any number of creations, updates and changes of status of pipelines and connectors, by any
  -- callers, whether the calls returned or threw.
  pub pipelines_stay_runnable :
      {v w : World js.Num} → Steps Call v w → HasRunnablePipelines js v → HasRunnablePipelines js w
  pipelines_stay_runnable steps = (Steps-Rel (runnable js) Call Call-runnable steps).kept

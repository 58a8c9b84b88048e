-- ===== src/Connectors/Laws.antt =====
-- No handler of apps/api/src/connectors/connectors.service.ts stores a configuration that the policy
-- refuses.
use sync_bridge_platform.Base.{
  String, Bool, true, false, Option, none, some, ◌≡◌, refl, inl, inr, arith, All, All-append,
  Bool-cases, Option-cases, or_else,
}
use sync_bridge_platform.Js.{Js, Fields, obj}
use sync_bridge_platform.Database.{Connector, ConnectorStatus, World}
use sync_bridge_platform.Database.Laws.{All-update}
use sync_bridge_platform.Effects.{Env, M, pure, ◌>>◌}
use sync_bridge_platform.Effects.Frame.{Frame, Keeps, Keeps-bind, kept_by_reads, Steps, Steps-Rel}
use sync_bridge_platform.SyncRuns.Tables.{Actor}
use sync_bridge_platform.Webhooks.Tables.{find_connector}
use sync_bridge_platform.Connectors.Policy.{has_forbidden_config_keys}
use sync_bridge_platform.Connectors.{
  CreateConnectorDto, UpdateConnectorDto, changes, log_if, updated_connector, create_connector_row,
  update_connector_row, get_connector, find_connector_for, update_connector_status,
  assert_safe_config, assert_safe_if_given, create_connector, update_connector,
}

pub find_connector_for-reads :
    {N : Type 0} (id : String) (caller : Actor) (w : World N)
    → (find_connector_for id caller w).1 ≡ w
unfolding find_connector_for get_connector
find_connector_for-reads id caller w = elim (Option-cases (find_connector id w.connectors)) [
  | inl missing ↦ rw (missing, find_connector_for) refl
  | inr (c, at) ↦ ground (arith, at)
]

module _ (js : Js) where
  abbrev pub IsSafeConfig : Fields js.Num → Type 0
  IsSafeConfig config_json = has_forbidden_config_keys js (obj config_json) ≡ false

  -- No connector in the table has a configuration that the policy refuses.
  abbrev pub HasSafeConnectors : World js.Num → Type 0
  HasSafeConnectors w = All (λ c. IsSafeConfig c.config_json) w.connectors

  pub record KeepSafe (v w : World js.Num) : Type 0 where
    pub kept : HasSafeConnectors v → HasSafeConnectors w

  abbrev safe : Frame js.Num
  safe = record {
    Rel = KeepSafe;
    self = λ w. record { kept = λ h. h };
    trans = λ f g. record { kept = λ h. g.kept (f.kept h) };
  }

  update_connector_row-safe :
      (id : String) (change : Connector js.Num → Connector js.Num)
      → ((c : Connector js.Num) → IsSafeConfig c.config_json → IsSafeConfig (change c).config_json)
      → Keeps safe (update_connector_row id change)
  unfolding update_connector_row
  update_connector_row-safe id change keeps w = record {
    kept = λ h. elim (Option-cases (find_connector id w.connectors)) [
      | inl missing ↦ rw (missing, update_connector_row) h
      | inr (c, at) ↦
          rw (at, update_connector_row)
            (All-update (λ q. q.id) (λ q. IsSafeConfig q.config_json) id change w.connectors keeps
              h)
    ];
  }

  -- Behind the check of the configuration, if one was given, it is a safe one.
  assert_safe_if_given-safe :
      {B : Type 0} (given : Option (Fields js.Num)) (next : M js.Num B)
      → (((config : Fields js.Num) → IsSafeConfig config → IsSafeConfig (or_else given config))
          → Keeps safe next)
      → Keeps safe (assert_safe_if_given js given >> next)
  unfolding assert_safe_config
  assert_safe_if_given-safe none next h w = record {
    kept = λ before. (h (λ config is_safe. is_safe) w).kept before;
  }
  assert_safe_if_given-safe (some config_json) next h w =
      elim (Bool-cases (has_forbidden_config_keys js (obj config_json))) [
        | inl e ↦ record { kept = λ before. rw e before }
        | inr e ↦ record { kept = λ before. rw e ((h (λ config is_safe. e) w).kept before) }
      ]

  log_change-safe :
      (changed : Bool) (id sub : String) (c : Connector js.Num)
      → Keeps safe (log_if changed id sub >> pure c)
  log_change-safe true id sub c w = record { kept = λ h. h }
  log_change-safe false id sub c w = record { kept = λ h. h }

  create_connector-safe :
      (env : Env) (dto : CreateConnectorDto js.Num) (caller : Actor)
      → Keeps safe (create_connector js env dto caller)
  unfolding create_connector assert_safe_config create_connector_row
  create_connector-safe env dto caller w = record {
    kept = λ h. elim (Bool-cases (has_forbidden_config_keys js (obj dto.config_json))) [
      | inl e ↦ rw e h
      | inr e ↦ rw e (All-append _ w.connectors _ h (e, tt))
    ];
  }

  update_connector-safe :
      (id : String) (dto : UpdateConnectorDto js.Num) (caller : Actor)
      → Keeps safe (update_connector js id dto caller)
  unfolding update_connector
  update_connector-safe id dto caller =
      Keeps-bind safe (find_connector_for id caller) _
        (kept_by_reads safe (find_connector_for id caller) (find_connector_for-reads id caller))
        (λ c. assert_safe_if_given-safe dto.config_json _ (λ given.
          Keeps-bind safe (update_connector_row id (updated_connector dto)) _
            (update_connector_row-safe id (updated_connector dto) (λ q. given q.config_json))
            (λ updated. log_change-safe (changes dto.status c.status) c.id caller.sub updated)))

  update_connector_status-safe :
      (id : String) (status : ConnectorStatus) (caller : Actor)
      → Keeps safe (update_connector_status id status caller)
  unfolding update_connector_status
  update_connector_status-safe id status caller =
      Keeps-bind safe (find_connector_for id caller) _
        (kept_by_reads safe (find_connector_for id caller) (find_connector_for-reads id caller))
        (λ c.
          Keeps-bind safe (update_connector_row id (λ q. record q { status = status })) _
            (update_connector_row-safe id _ (λ q h. h))
            (λ updated. log_change-safe true c.id caller.sub updated))

  -- A call of the service, from any tables, and the tables behind it.
  pub data Call (w : World js.Num) : World js.Num → Type 0 where
    creating :
        (env : Env) (dto : CreateConnectorDto js.Num) (caller : Actor)
        → Call w (create_connector js env dto caller w).1
    updating :
        (id : String) (dto : UpdateConnectorDto js.Num) (caller : Actor)
        → Call w (update_connector js id dto caller w).1
    changing_status :
        (id : String) (status : ConnectorStatus) (caller : Actor)
        → Call w (update_connector_status id status caller w).1

  Call-safe : (v w : World js.Num) → Call v w → KeepSafe v w
  Call-safe v w (creating env dto caller) = create_connector-safe env dto caller v
  Call-safe v w (updating id dto caller) = update_connector-safe id dto caller v
  Call-safe v w (changing_status id status caller) = update_connector_status-safe id status caller v

  -- If no connector in the table has a configuration with a forbidden key, none has one after any number of
  -- creations, updates and changes of status, by any callers, whether the calls returned or threw.
  pub connectors_stay_safe :
      {v w : World js.Num} → Steps Call v w → HasSafeConnectors v → HasSafeConnectors w
  connectors_stay_safe steps = (Steps-Rel safe Call Call-safe steps).kept

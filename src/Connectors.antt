-- ===== src/Connectors.antt =====
-- apps/api/src/connectors/connectors.service.ts: the sources of records, with the policy on their
-- configuration. The DTOs come validated.
pub mod Policy
pub mod Laws
use sync_bridge_platform.Base.{
  suc, String, Bool, true, false, not, ◌&&◌, Option, none, some, List, [], ◌∷◌, ◌++◌, ◌==◌, ok, err,
  keep, latest_first, trim, present, or_else, if◌then◌else◌,
}
use sync_bridge_platform.Js.{Js, Fields, obj}
use sync_bridge_platform.Database.{
  active, paused, error, Connector, ConnectorType, ConnectorStatus, World, find, update,
}
use sync_bridge_platform.Effects.{
  not_found, forbidden, bad_request, plain, Env, M, pure, throw_if, or_throw, gets, log, ◌>>=◌,
  ◌>>◌,
}
use sync_bridge_platform.SyncRuns.Tables.{Actor}
use sync_bridge_platform.SyncRuns.Execute.{is_privileged}
use sync_bridge_platform.Webhooks.Tables.{find_connector}
use Policy.{has_forbidden_config_keys}

pub record CreateConnectorDto (N : Type 0) : Type 0 where
  pub name : String
  pub type : ConnectorType
  pub config_json : Fields N

pub record UpdateConnectorDto (N : Type 0) : Type 0 where
  pub name : Option String
  pub status : Option ConnectorStatus
  pub config_json : Option (Fields N)

abbrev pub connector_secret_policy_error : String
connector_secret_policy_error =
    "Connector credentials must not be stored in configJson. Use a secret manager in production."

abbrev same_status : ConnectorStatus → ConnectorStatus → Bool
same_status active active = true
same_status paused paused = true
same_status error error = true
same_status _ _ = false

-- `dto.status && dto.status !== status`
abbrev pub changes : Option ConnectorStatus → ConnectorStatus → Bool
changes none status = false
changes (some next) status = not (same_status next status)

-- `value ? value.trim() : kept`
abbrev pub trimmed_or : Option String → String → String
trimmed_or value kept = elim (present value) [ none ↦ kept | some text ↦ trim text ]

module _ {N : Type 0} where
  -- `prisma.connector.create` and `prisma.connector.update`
  unfoldable pub create_connector_row : Env → (String → Connector N) → M N (Connector N)
  create_connector_row env row w =
      let made = row (env.uuid w.ticks) in
      (ok made, record w { connectors = w.connectors ++ made ∷ []; ticks = suc w.ticks })

  unfoldable pub update_connector_row : String → (Connector N → Connector N) → M N (Connector N)
  update_connector_row id change w = elim (find_connector id w.connectors) [
    | none ↦ (err (plain "Connector not found"), w)
    | some c ↦ (ok (change c), record w { connectors = update (λ q. q.id) id change w.connectors })
  ]

  -- `getById`
  unfoldable pub get_connector : String → M N (Connector N)
  get_connector id w = or_throw (find_connector id w.connectors) (not_found "Connector not found") w

  -- `findOne`
  unfoldable pub find_connector_for : String → Actor → M N (Connector N)
  find_connector_for id caller = do
    c ← get_connector id
    throw_if (not (is_privileged caller.role) && not (c.owner_id == caller.sub))
        (forbidden "You do not have access to this connector")
    pure c

  -- `findAll`, which only reads.
  unfoldable pub find_connectors : Actor → World N → List (Connector N)
  find_connectors caller w = latest_first (
      if is_privileged caller.role
      then w.connectors
      else keep (λ c. c.owner_id == caller.sub) w.connectors)

  abbrev pub new_connector : CreateConnectorDto N → String → String → Connector N
  new_connector dto owner_id id = record {
    id = id;
    name = trim dto.name;
    type = dto.type;
    status = active;
    config_json = dto.config_json;
    owner_id = owner_id;
  }

  abbrev pub updated_connector : UpdateConnectorDto N → Connector N → Connector N
  updated_connector dto c = record c {
    name = trimmed_or dto.name c.name;
    status = or_else dto.status c.status;
    config_json = or_else dto.config_json c.config_json;
  }

  abbrev pub log_if : Bool → String → String → M N (Unit {0})
  log_if true id sub = log "connector_status_updated" "connector" id (some sub)
  log_if false id sub = pure tt

  unfoldable pub update_connector_status : String → ConnectorStatus → Actor → M N (Connector N)
  update_connector_status id status caller = do
    c ← find_connector_for id caller
    updated ← update_connector_row id (λ c. record c { status = status })
    log "connector_status_updated" "connector" c.id (some caller.sub)
    pure updated

module _ (js : Js) where
  unfoldable pub assert_safe_config : Fields js.Num → M js.Num (Unit {0})
  assert_safe_config config_json =
      throw_if (has_forbidden_config_keys js (obj config_json))
        (bad_request (connector_secret_policy_error ∷ []))

  abbrev pub assert_safe_if_given : Option (Fields js.Num) → M js.Num (Unit {0})
  assert_safe_if_given none = pure tt
  assert_safe_if_given (some config_json) = assert_safe_config config_json

  unfoldable pub create_connector :
      Env → CreateConnectorDto js.Num → Actor → M js.Num (Connector js.Num)
  create_connector env dto caller = do
    assert_safe_config dto.config_json
    c ← create_connector_row env (new_connector dto caller.sub)
    log "connector_created" "connector" c.id (some caller.sub)
    pure c

  unfoldable pub update_connector :
      String → UpdateConnectorDto js.Num → Actor → M js.Num (Connector js.Num)
  update_connector id dto caller = do
    c ← find_connector_for id caller
    assert_safe_if_given dto.config_json
    updated ← update_connector_row id (updated_connector dto)
    log_if (changes dto.status c.status) c.id caller.sub
    pure updated

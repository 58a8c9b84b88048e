-- ===== src/Pipelines/Runnable.antt =====
-- What the handlers of apps/api/src/pipelines/pipelines.service.ts and
-- apps/api/src/connectors/connectors.service.ts keep of the pipelines: a mapping that compiles, and a
-- connector that is there.
use mathlib.Core.Path.{subst}
use sync_bridge_platform.Base.{
  String, Bool, true, not, ◌&&◌, ◌||◌, ◌==◌, ◌⊎◌, Option, none, some, List, ◌≡◌, refl,
  some-injective, inl, inr, arith, ok, err, All, All-mono, Bool-cases, Option-cases,
}
use sync_bridge_platform.Js.{Js, Fields}
use sync_bridge_platform.Database.{Connector, SyncPipeline, World}
use sync_bridge_platform.Database.Laws.{All-update, Found, Found-update}
use sync_bridge_platform.Effects.{Error, not_found, forbidden, M, ◌>>◌}
use sync_bridge_platform.Effects.Frame.{Returns, Frame, Keeps}
use sync_bridge_platform.Transformations.Mapping.{validate_mapping}
use sync_bridge_platform.SyncRuns.Tables.{Actor, find_pipeline, update_pipeline}
use sync_bridge_platform.SyncRuns.Execute.{is_privileged, get_by_id, find_one}
use sync_bridge_platform.Webhooks.Tables.{find_connector}
use sync_bridge_platform.Connectors.{update_connector_row, get_connector}
use sync_bridge_platform.Pipelines.{
  assert_own_connector, assert_own_if_given, assert_valid_mapping, assert_valid_if_given,
}

pub find_one-reads :
    {N : Type 0} (id : String) (caller : Actor) (w : World N) → (find_one id caller w).1 ≡ w
unfolding find_one get_by_id
find_one-reads id caller w = elim (Option-cases (find_pipeline id w.pipelines)) [
  | inl missing ↦ rw (missing, find_one) refl
  | inr (p, at) ↦ ground (arith, at)
]

-- Whom a pipeline is shown to.
abbrev pub may_see : {N : Type 0} → Actor → SyncPipeline N → Bool
may_see caller p = is_privileged caller.role || p.owner_id == caller.sub

pub find_one_found :
    {N : Type 0} (id : String) (caller : Actor) (w : World N)
    → Returns
        (λ p v. (find_pipeline id w.pipelines ≡ some p) × (may_see caller p ≡ true) × (v ≡ w))
        (find_one id caller w)
unfolding find_one get_by_id
find_one_found id caller w p got = elim (Option-cases (find_pipeline id w.pipelines)) [
  | inl missing ↦ absurd (ground (arith, missing))
  | inr (q, at) ↦ (ground (arith, at), ground (arith, at), find_one-reads id caller w)
]

-- The check of a connector throws, or it returns for one that is in the table; it writes nothing.
assert_own_connector_cases :
    {N : Type 0} (id : String) (caller : Actor) (w : World N)
    → ((e : Error) × (assert_own_connector id caller w ≡ (err e, w)))
      ⊎ ((assert_own_connector id caller w ≡ (ok tt, w)) × Found (λ c. c.id) id w.connectors)
unfolding assert_own_connector get_connector
assert_own_connector_cases id caller w = elim (Option-cases (find_connector id w.connectors)) [
  | inl missing ↦ inl (not_found "Connector not found", rw (missing, assert_own_connector) refl)
  | inr (c, at) ↦
      elim (Bool-cases (not (is_privileged caller.role) && not (c.owner_id == caller.sub))) [
        | inl e ↦
            inl (
              forbidden "You can only use your own connector",
              rw (at, e, assert_own_connector) refl,
            )
        | inr e ↦ inr (rw (at, e, assert_own_connector) refl, rw at)
      ]
]

none_not_some : {A : Type 0} {a : A} → ◌≡◌ {A = Option A} none (some a) → ⊥
none_not_some h = cc

module _ (js : Js) where
  abbrev pub IsValid : Fields js.Num → Type 0
  IsValid mapping = (validate_mapping js mapping).valid ≡ true

  -- A pipeline that can run: its mapping is valid, and its connector is in the table.
  pub record IsRunnable (connectors : List (Connector js.Num)) (p : SyncPipeline js.Num)
      : Type 0 where
    pub valid : (validate_mapping js p.mapping_json).valid ≡ true
    pub connected : Found (λ c. c.id) p.source_connector_id connectors

  abbrev pub HasRunnablePipelines : World js.Num → Type 0
  HasRunnablePipelines w = All (IsRunnable w.connectors) w.pipelines

  -- Connectors stay in the table, and pipelines runnable.
  pub record KeepRunnable (v w : World js.Num) : Type 0 where
    pub kept : HasRunnablePipelines v → HasRunnablePipelines w

  abbrev pub runnable : Frame js.Num
  runnable = record {
    Rel = KeepRunnable;
    self = λ w. record { kept = λ h. h };
    trans = λ f g. record { kept = λ h. g.kept (f.kept h) };
  }

  pub update_pipeline-runnable :
      (id : String) (change : SyncPipeline js.Num → SyncPipeline js.Num) (w : World js.Num)
      → ((p : SyncPipeline js.Num) → IsRunnable w.connectors p → IsRunnable w.connectors (change p))
      → KeepRunnable w (update_pipeline id change w).1
  unfolding update_pipeline
  update_pipeline-runnable id change w keeps = record {
    kept = λ h. elim (Option-cases (find_pipeline id w.pipelines)) [
      | inl missing ↦ rw (missing, update_pipeline) h
      | inr (p, at) ↦
          rw (at, update_pipeline)
            (All-update (λ q. q.id) (IsRunnable w.connectors) id change w.pipelines keeps h)
    ];
  }

  pub update_connector_row-runnable :
      (id : String) (change : Connector js.Num → Connector js.Num)
      → ((c : Connector js.Num) → (change c).id ≡ c.id)
      → Keeps runnable (update_connector_row id change)
  unfolding update_connector_row
  update_connector_row-runnable id change named w = record {
    kept = λ h. elim (Option-cases (find_connector id w.connectors)) [
      | inl missing ↦ rw (missing, update_connector_row) h
      | inr (c, at) ↦
          rw (at, update_connector_row)
            (All-mono w.pipelines
              (λ p r. record {
                valid = r.valid;
                connected =
                    Found-update (λ q. q.id) p.source_connector_id id change w.connectors named
                      r.connected;
              })
              h)
    ];
  }

  -- Behind the check of a mapping, if one was given, it is a valid one.
  pub assert_valid_if_given-runnable :
      {B : Type 0} (given : Option (Fields js.Num)) (next : M js.Num B)
      → (((mapping : Fields js.Num) → given ≡ some mapping → IsValid mapping) → Keeps runnable next)
      → Keeps runnable (assert_valid_if_given js given >> next)
  unfolding assert_valid_mapping
  assert_valid_if_given-runnable none next h w = record {
    kept = λ before. (h (λ mapping same. absurd (none_not_some same)) w).kept before;
  }
  assert_valid_if_given-runnable (some given) next h w =
      elim (Bool-cases (validate_mapping js given).valid) [
        | inl e ↦ record {
          kept = λ before.
              rw e ((h (λ mapping same. subst IsValid (some-injective same) e) w).kept before);
        }
        | inr e ↦ record { kept = λ before. rw e before }
      ]

  -- Behind the check of a connector, if one was given, it is in the table.
  pub assert_own_if_given-runnable :
      {B : Type 0} (given : Option String) (caller : Actor) (next : M js.Num B)
      → ((w : World js.Num)
          → ((id : String) → given ≡ some id → Found (λ c. c.id) id w.connectors)
          → KeepRunnable w (next w).1)
      → Keeps runnable (assert_own_if_given given caller >> next)
  assert_own_if_given-runnable none caller next h w = record {
    kept = λ before. (h w (λ id same. absurd (none_not_some same))).kept before;
  }
  assert_own_if_given-runnable (some given) caller next h w =
      elim (assert_own_connector_cases given caller w) [
        | inl (e, thrown) ↦ record { kept = λ before. rw thrown before }
        | inr (returned, there) ↦ record {
          kept = λ before. rw returned (
              (h w (λ id same.
                  subst (λ k. Found (λ c. c.id) k w.connectors) (some-injective same) there)).kept
                before);
        }
      ]

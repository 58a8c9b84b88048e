-- ===== src/Webhooks/Process/Trail.antt =====
-- apps/api/src/webhooks/webhooks.service.ts: the rows that the runs of an event leave in the table.
use mathlib.Core.Path.{subst}
use sync_bridge_platform.Base.{
  ℕ, suc, String, Option, none, some, List, [], ◌∷◌, ◌++◌, ◌≡◌, ◌∙◌, ap, arith, inl, inr, Result,
  ok, err, Option-cases, ok-injective,
}
use sync_bridge_platform.Js.{Js, Fields}
use sync_bridge_platform.Transformations.Errors.{TransformationErrorDetail}
use sync_bridge_platform.Transformations.Mapping.{
  NormalizedMappingField, MappingError, compile_mapping,
}
use sync_bridge_platform.Database.{
  success, failed, SyncRunStatus, SyncPipeline, SyncRun, SyncedRecord, World, update,
}
use sync_bridge_platform.Effects.{Env}
use sync_bridge_platform.Effects.Frame.{Returns, Returns-continue}
use sync_bridge_platform.SyncRuns.Tables.{
  Actor, find_run, update_run, update_pipeline, create_run, create_synced_record,
}
use sync_bridge_platform.SyncRuns.Records.{transform}
use sync_bridge_platform.Webhooks.Process.{
  RunCounts, WebhookProcessingSummary, counted, one_processed, one_failed, mapping_message,
  closed_run, started_run, close_run, fail_run, settle_payload, by_mapping, webhook_row,
  process_webhook_for_pipeline, process_pipelines,
}
use sync_bridge_platform.Webhooks.Process.Runs.{begun}

-- The two ways to close a run, with what each counts.
pub data IsClosing : (SyncRun → SyncRun) → RunCounts → Type 0 where
  as_success : (t : ℕ) → IsClosing (closed_run success one_processed none t) one_processed
  as_failed :
      (message : String) (t : ℕ)
      → IsClosing (closed_run failed one_failed (some message) t) one_failed

-- The table of runs `rows` with the run `id` closed.
abbrev pub IsClosed : {N : Type 0} → List SyncRun → String → RunCounts → World N → Type 0
IsClosed rows id c w =
    (change : SyncRun → SyncRun) × IsClosing change c
    × (w.sync_runs ≡ update (λ r. r.id) id change rows)

-- What the loop over the pipelines does to its summary and to the table of runs.
pub data Trail {N : Type 0}
    : List (SyncPipeline N)
      → WebhookProcessingSummary
      → List SyncRun
      → WebhookProcessingSummary
      → List SyncRun
      → Type 0 where
  over : {s : WebhookProcessingSummary} {rows : List SyncRun} → Trail [] s rows s rows
  turn :
      {p : SyncPipeline N} {ps : List (SyncPipeline N)} {s t : WebhookProcessingSummary}
      {rows rows' : List SyncRun}
      → (id : String) (started_at : ℕ) (change : SyncRun → SyncRun) (c : RunCounts)
      → IsClosing change c
      → Trail ps
          (counted p.id id c s)
          (update (λ r. r.id) id change (rows ++ started_run p.id started_at id ∷ []))
          t
          rows'
      → Trail (p ∷ ps) s rows t rows'

module _ (js : Js) (env : Env) (actor : Option Actor) where
  close_run-rows :
      (pipeline_id id : String) (status : SyncRunStatus) (counts : RunCounts)
      (message : Option String) (w : World js.Num)
      → (close_run js env actor pipeline_id id status counts message w).0 ≡ ok tt
      → (close_run js env actor pipeline_id id status counts message w).1.sync_runs
        ≡ update (λ r. r.id) id (closed_run status counts message (env.clock w.ticks)) w.sync_runs
  unfolding close_run update_run update_pipeline
  close_run-rows pipeline_id id status counts message w returned =
      elim (Option-cases (find_run id w.sync_runs)) [
        | inl missing ↦ absurd (ground arith)
        | inr (r, at) ↦ ground arith
      ]

  fail_run-IsClosed :
      (pipeline_id id message : String) (w : World js.Num)
      → Returns (IsClosed w.sync_runs id) (fail_run js env actor pipeline_id id message w)
  unfolding fail_run
  fail_run-IsClosed pipeline_id id message w =
      let change = closed_run failed one_failed (some message) (env.clock w.ticks) in
      let m = close_run js env actor pipeline_id id failed one_failed (some message) w in
      Returns-continue (IsClosed w.sync_runs id) m.0 _ m.1 (λ _ returned c same. (
        change,
        subst (IsClosing change) (ok-injective same) (as_failed message (env.clock w.ticks)),
        close_run-rows pipeline_id id failed one_failed (some message) w returned,
      ))

  create_synced_record-rows :
      (row : String → SyncedRecord js.Num) (w : World js.Num)
      → (create_synced_record env row w).1.sync_runs ≡ w.sync_runs
  unfolding create_synced_record
  create_synced_record-rows row w = ground arith

  settle_payload-IsClosed :
      (pipeline_id : String) (payload : Fields js.Num) (external_id id : String)
      (normalized : Fields js.Num) (errors : List TransformationErrorDetail) (w : World js.Num)
      → Returns
          (IsClosed w.sync_runs id)
          (settle_payload js env actor pipeline_id payload external_id id normalized errors w)
  unfolding settle_payload
  settle_payload-IsClosed pipeline_id payload external_id id normalized (e ∷ errors) w =
      fail_run-IsClosed pipeline_id id "One or more records failed during processing." w
  settle_payload-IsClosed pipeline_id payload external_id id normalized [] w =
      let row = webhook_row js env actor pipeline_id payload external_id id normalized in
      let made = create_synced_record env row w in
      let change = closed_run success one_processed none (env.clock made.1.ticks) in
      let m = close_run js env actor pipeline_id id success one_processed none made.1 in
      Returns-continue (IsClosed w.sync_runs id) made.0 _ made.1 (λ x _.
        Returns-continue (IsClosed w.sync_runs id) m.0 _ m.1 (λ _ returned c same. (
          change,
          subst (IsClosing change) (ok-injective same) (as_success (env.clock made.1.ticks)),
          close_run-rows pipeline_id id success one_processed none made.1 returned
              ∙ ap (update (λ (r : SyncRun). r.id) id change) (create_synced_record-rows row w),
        )))

  transform-rows :
      (payload : Fields js.Num) (fields : List (NormalizedMappingField js.Num)) (w : World js.Num)
      → (transform js env payload fields w).1.sync_runs ≡ w.sync_runs
  unfolding transform
  transform-rows payload fields w = ground (arith)

  by_mapping-IsClosed :
      (pipeline_id : String) (payload : Fields js.Num) (external_id id : String)
      (fields : Result MappingError (List (NormalizedMappingField js.Num))) (w : World js.Num)
      → Returns
          (IsClosed w.sync_runs id)
          (by_mapping js env actor pipeline_id payload external_id id fields w)
  unfolding by_mapping
  by_mapping-IsClosed pipeline_id payload external_id id (err e) w =
      fail_run-IsClosed pipeline_id id (mapping_message e) w
  by_mapping-IsClosed pipeline_id payload external_id id (ok fields) w =
      let m = transform js env payload fields w in
      subst
        (λ (rows : List SyncRun).
          Returns (IsClosed rows id)
            (by_mapping js env actor pipeline_id payload external_id id (ok fields) w))
        (transform-rows payload fields w)
        (Returns-continue (IsClosed m.1.sync_runs id) m.0 _ m.1 (λ p _.
          settle_payload-IsClosed pipeline_id payload external_id id p.normalized p.errors m.1))

  pub process_pipelines-Trail :
      (payload : Fields js.Num) (external_id : String) (ps : List (SyncPipeline js.Num))
      (s : WebhookProcessingSummary) (w : World js.Num)
      → Returns
          (λ t v. Trail ps s w.sync_runs t v.sync_runs)
          (process_pipelines js env actor payload external_id s ps w)
  unfolding process_pipelines process_webhook_for_pipeline create_run
  process_pipelines-Trail payload external_id [] s w = λ t same.
      subst (λ (x : WebhookProcessingSummary). Trail {N = js.Num} [] s w.sync_runs x w.sync_runs)
        (ok-injective same) over
  process_pipelines-Trail payload external_id (p ∷ ps) s w =
      let id = env.uuid (suc w.ticks) in
      let v = begun js env actor p.id w in
      let m =
        process_webhook_for_pipeline js env actor p.id p.mapping_json payload external_id id v in
      Returns-continue (λ t v'. Trail (p ∷ ps) s w.sync_runs t v'.sync_runs) m.0 _ m.1
        (λ c returned t same.
          let (change, closing, rows) =
            by_mapping-IsClosed p.id payload external_id id (compile_mapping js p.mapping_json) v c
              returned in
          let after =
            process_pipelines js env actor payload external_id (counted p.id id c s) ps m.1 in
          let rest =
            process_pipelines-Trail payload external_id ps (counted p.id id c s) m.1 t same in
          turn id (env.clock w.ticks) change c closing (
            subst (λ (x : List SyncRun). Trail ps (counted p.id id c s) x t after.1.sync_runs) rows
              rest))

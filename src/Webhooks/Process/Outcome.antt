-- ===== src/Webhooks/Process/Outcome.antt =====
-- apps/api/src/webhooks/webhooks.service.ts: what the processing of an event comes to.
use mathlib.Core.Path.{subst}
use mathlib.Core.List.{append-nil, append_assoc}
use sync_bridge_platform.Base.{
  suc, ◌+◌, String, Option, none, some, List, [], ◌∷◌, ◌++◌, map, ◌≡◌, refl, sym, ◌∙◌, inl, inr,
  arith, Result, ok, err, ok-injective, length, length-append, All, All-append, Option-cases,
}
use sync_bridge_platform.Js.{Js, Fields}
use sync_bridge_platform.Transformations.Errors.{TransformationErrorDetail}
use sync_bridge_platform.Transformations.Mapping.{
  NormalizedMappingField, MappingError, compile_mapping,
}
use sync_bridge_platform.Database.{success, failed, SyncRunStatus, SyncPipeline, World}
use sync_bridge_platform.Database.Laws.{find-update_self}
use sync_bridge_platform.Effects.{Env}
use sync_bridge_platform.Effects.Frame.{Returns, Returns-continue}
use sync_bridge_platform.SyncRuns.Tables.{
  Actor, find_run, update_run, update_pipeline, create_run, create_synced_record,
}
use sync_bridge_platform.SyncRuns.Records.{transform}
use sync_bridge_platform.Webhooks.Process.{
  RunCounts, WebhookProcessingSummary, counted, one_processed, one_failed, mapping_message,
  closed_run, close_run, fail_run, settle_payload, by_mapping, webhook_row,
  process_webhook_for_pipeline, process_pipelines,
}
use sync_bridge_platform.Webhooks.Process.Runs.{
  IsFinished, succeeded, broken, Finished, Unharmed, unharmed, begun, begun-Unharmed,
  process_webhook_for_pipeline-Unharmed,
}

-- A run that is closed, and counted once.
abbrev pub Closed : {N : Type 0} → String → RunCounts → World N → Type 0
Closed id c w = Finished w id × (c.records_processed + c.records_failed ≡ 1)

module _ (js : Js) (env : Env) (actor : Option Actor) where
  close_run-Finished :
      (pipeline_id id : String) (status : SyncRunStatus) (counts : RunCounts)
      (message : Option String) (w : World js.Num)
      → IsFinished status
      → (close_run js env actor pipeline_id id status counts message w).0 ≡ ok tt
      → Finished (close_run js env actor pipeline_id id status counts message w).1 id
  unfolding close_run update_run update_pipeline
  close_run-Finished pipeline_id id status counts message w done returned =
      elim (Option-cases (find_run id w.sync_runs)) [
        | inl missing ↦ absurd (ground arith)
        | inr (r, at) ↦
            let change = closed_run status counts message (env.clock w.ticks) in
            (
              change r,
              ground (arith, find-update_self (λ x. x.id) id change w.sync_runs r (λ x. refl) at),
              done,
            )
      ]

  fail_run-Closed :
      (pipeline_id id message : String) (w : World js.Num)
      → Returns (Closed id) (fail_run js env actor pipeline_id id message w)
  unfolding fail_run
  fail_run-Closed pipeline_id id message w =
      let m = close_run js env actor pipeline_id id failed one_failed (some message) w in
      Returns-continue (Closed id) m.0 _ m.1 (λ _ returned c same. (
        close_run-Finished pipeline_id id failed one_failed (some message) w broken returned,
        ground (arith, ok-injective same),
      ))

  settle_payload-Closed :
      (pipeline_id : String) (payload : Fields js.Num) (external_id id : String)
      (normalized : Fields js.Num) (errors : List TransformationErrorDetail) (w : World js.Num)
      → Returns
          (Closed id)
          (settle_payload js env actor pipeline_id payload external_id id normalized errors w)
  unfolding settle_payload
  settle_payload-Closed pipeline_id payload external_id id normalized (e ∷ errors) w =
      fail_run-Closed pipeline_id id "One or more records failed during processing." w
  settle_payload-Closed pipeline_id payload external_id id normalized [] w =
      let made =
        create_synced_record env
          (webhook_row js env actor pipeline_id payload external_id id normalized) w in
      let m = close_run js env actor pipeline_id id success one_processed none made.1 in
      Returns-continue (Closed id) made.0 _ made.1 (λ x _.
        Returns-continue (Closed id) m.0 _ m.1 (λ _ returned c same. (
          close_run-Finished pipeline_id id success one_processed none made.1 succeeded returned,
          ground (arith, ok-injective same),
        )))

  by_mapping-Closed :
      (pipeline_id : String) (payload : Fields js.Num) (external_id id : String)
      (fields : Result MappingError (List (NormalizedMappingField js.Num))) (w : World js.Num)
      → Returns (Closed id) (by_mapping js env actor pipeline_id payload external_id id fields w)
  unfolding by_mapping
  by_mapping-Closed pipeline_id payload external_id id (err e) w =
      fail_run-Closed pipeline_id id (mapping_message e) w
  by_mapping-Closed pipeline_id payload external_id id (ok fields) w =
      let m = transform js env payload fields w in
      Returns-continue (Closed id) m.0 _ m.1
        (λ p _. settle_payload-Closed pipeline_id payload external_id id p.normalized p.errors m.1)

  -- What the loop adds to a summary, and the runs that it closed.
  pub record Processed (s : WebhookProcessingSummary) (ps : List (SyncPipeline js.Num))
      (t : WebhookProcessingSummary) (w : World js.Num) : Type 0 where
    pub status : t.status ≡ s.status
    pub pipelines : t.pipeline_ids ≡ s.pipeline_ids ++ map (λ p. p.id) ps
    pub runs : length t.sync_run_ids ≡ length s.sync_run_ids + length ps
    pub counts :
        t.records_processed + t.records_failed ≡ s.records_processed + s.records_failed + length ps
    pub finished : All (Finished w) t.sync_run_ids

  All-Finished :
      {v w : World js.Num} (ids : List String)
      → Unharmed v w
      → All (Finished v) ids
      → All (Finished w) ids
  All-Finished [] kept done = tt
  All-Finished (id ∷ ids) kept (one, done) = (kept.finished id one, All-Finished ids kept done)

  pub process_pipelines-Processed :
      (payload : Fields js.Num) (external_id : String) (ps : List (SyncPipeline js.Num))
      (s : WebhookProcessingSummary) (w : World js.Num)
      → All (Finished w) s.sync_run_ids
      → Returns (Processed s ps) (process_pipelines js env actor payload external_id s ps w)
  unfolding process_pipelines process_webhook_for_pipeline create_run
  process_pipelines-Processed payload external_id [] s w done = λ t same.
      subst (λ (x : WebhookProcessingSummary). Processed s [] x w) (ok-injective same)
        (record {
          status = refl;
          pipelines = sym (append-nil s.pipeline_ids);
          runs = omega arith;
          counts = omega arith;
          finished = done;
        })
  process_pipelines-Processed payload external_id (p ∷ ps) s w done =
      let id = env.uuid (suc w.ticks) in
      let v = begun js env actor p.id w in
      let m =
        process_webhook_for_pipeline js env actor p.id p.mapping_json payload external_id id v in
      Returns-continue (Processed s (p ∷ ps)) m.0 _ m.1 (λ c returned t same.
        let (closed, one) =
          by_mapping-Closed p.id payload external_id id (compile_mapping js p.mapping_json) v c
            returned in
        let kept = unharmed.trans (begun-Unharmed js env actor p.id w) (
          process_webhook_for_pipeline-Unharmed js env actor p.id p.mapping_json payload external_id
            id v) in
        let rest =
          process_pipelines-Processed payload external_id ps (counted p.id id c s) m.1
            (All-append (Finished m.1) s.sync_run_ids (id ∷ [])
              (All-Finished s.sync_run_ids kept done) (closed, tt))
            t same in
        record {
          status = rest.status;
          pipelines = rest.pipelines ∙ append_assoc s.pipeline_ids (p.id ∷ []) (map (λ q. q.id) ps);
          runs = omega (arith, rest.runs, length-append s.sync_run_ids (id ∷ []));
          counts = omega (arith, rest.counts, one);
          finished = rest.finished;
        })

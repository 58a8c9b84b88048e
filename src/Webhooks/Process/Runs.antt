-- ===== src/Webhooks/Process/Runs.antt =====
-- apps/api/src/webhooks/webhooks.service.ts: what the runs of an event do to the tables.
use sync_bridge_platform.Base.{
  ℕ, suc, String, Option, none, some, List, [], ◌∷◌, ◌≡◌, refl, ◌∙◌, inl, inr, arith, Result, ok,
  err, ◌==◌, eq_iff, Bool-cases, Option-cases,
}
use sync_bridge_platform.Js.{Js, Fields}
use sync_bridge_platform.Transformations.Errors.{TransformationErrorDetail}
use sync_bridge_platform.Transformations.Mapping.{
  NormalizedMappingField, MappingError, compile_mapping,
}
use sync_bridge_platform.Database.{
  success, failed, SyncRunStatus, SyncPipeline, SyncRun, SyncedRecord, World, update,
}
use sync_bridge_platform.Database.Laws.{find-append, find-update_self, find-update_ne}
use sync_bridge_platform.Effects.{Env, draw, log}
use sync_bridge_platform.Effects.Frame.{Frame, Keeps, Keeps-continue}
use sync_bridge_platform.SyncRuns.Tables.{
  Actor, actor_id, find_run, update_run, update_pipeline, create_run, create_synced_record,
}
use sync_bridge_platform.SyncRuns.Records.{transform}
use sync_bridge_platform.Webhooks.Process.{
  RunCounts, counted, WebhookProcessingSummary, one_failed, one_processed, mapping_message,
  started_run, webhook_row, closed_run, close_run, fail_run, settle_payload, by_mapping,
  process_webhook_for_pipeline, process_pipelines,
}

-- The statuses that a run never leaves.
pub data IsFinished : SyncRunStatus → Type 0 where
  succeeded : IsFinished success
  broken : IsFinished failed

-- The run under an id is finished.
abbrev pub Finished : {N : Type 0} → World N → String → Type 0
Finished w id = (r : SyncRun) × (find_run id w.sync_runs ≡ some r) × IsFinished r.status

-- What the runs of an event leave alone: the events, the jobs, and that a run is finished.
pub record Unharmed {N : Type 0} (w w' : World N) : Type 0 where
  pub webhook_events : w'.webhook_events ≡ w.webhook_events
  pub background_jobs : w'.background_jobs ≡ w.background_jobs
  pub finished : (id : String) → Finished w id → Finished w' id

abbrev pub unharmed : {N : Type 0} → Frame N
unharmed = record {
  Rel = Unharmed;
  self = λ w. record { webhook_events = refl; background_jobs = refl; finished = λ id f. f };
  trans = λ a b. record {
    webhook_events = b.webhook_events ∙ a.webhook_events;
    background_jobs = b.background_jobs ∙ a.background_jobs;
    finished = λ id f. b.finished id (a.finished id f);
  };
}

module _ (js : Js) (env : Env) (actor : Option Actor) where
  Keeps-log :
      (action entity_type entity_id : String) (by : Option String)
      → Keeps {N = js.Num} unharmed (log action entity_type entity_id by)
  Keeps-log action entity_type entity_id by w = record {
    webhook_events = refl;
    background_jobs = refl;
    finished = λ id f. f;
  }

  Keeps-draw : {A : Type 0} (f : ℕ → A) → Keeps {N = js.Num} unharmed (draw f)
  Keeps-draw f w = record { webhook_events = refl; background_jobs = refl; finished = λ id f. f }

  Keeps-create_run : (row : String → SyncRun) → Keeps {N = js.Num} unharmed (create_run env row)
  unfolding create_run
  Keeps-create_run row w = record {
    webhook_events = refl;
    background_jobs = refl;
    finished = λ id (r, at, done). (r, find-append (λ x. x.id) id w.sync_runs _ r at, done);
  }

  closed-Finished :
      (id : String) (status : SyncRunStatus) (counts : RunCounts) (message : Option String) (t : ℕ)
      (w : World js.Num) (r : SyncRun)
      → IsFinished status
      → find_run id w.sync_runs ≡ some r
      → find_run id (update (λ x. x.id) id (closed_run status counts message t) w.sync_runs)
        ≡ some (closed_run status counts message t r)
  closed-Finished id status counts message t w r done at =
      find-update_self (λ x. x.id) id (closed_run status counts message t) w.sync_runs r (λ x. refl)
        at

  update_run-Unharmed :
      (id : String) (status : SyncRunStatus) (counts : RunCounts) (message : Option String) (t : ℕ)
      → IsFinished status
      → Keeps {N = js.Num} unharmed (update_run id (closed_run status counts message t))
  unfolding update_run
  update_run-Unharmed id status counts message t done w =
      elim (Option-cases (find_run id w.sync_runs)) [
        | inl none_there ↦ rw (none_there, update_run) (unharmed.self w)
        | inr (r, at) ↦
            rw (at, update_run)
              (record {
                webhook_events = refl;
                background_jobs = refl;
                finished = λ other (q, there, over). elim (Bool-cases (id == other)) [
                  | inl same ↦ (
                    closed_run status counts message t r,
                    ground (
                      arith,
                      closed-Finished id status counts message t w r done at,
                      eq_iff id other,
                    ),
                    done,
                  )
                  | inr different ↦ (
                    q,
                    find-update_ne (λ x. x.id) id other (closed_run status counts message t)
                          w.sync_runs (λ x. refl) (ground (arith, eq_iff id other))
                        ∙ there,
                    over,
                  )
                ];
              })
      ]

  update_pipeline-Unharmed :
      (id : String) (change : SyncPipeline js.Num → SyncPipeline js.Num)
      → Keeps unharmed (update_pipeline id change)
  unfolding update_pipeline
  update_pipeline-Unharmed id change w = ground arith

  create_synced_record-Unharmed :
      (row : String → SyncedRecord js.Num) → Keeps unharmed (create_synced_record env row)
  unfolding create_synced_record
  create_synced_record-Unharmed row w = ground arith

  transform-Unharmed :
      (raw : Fields js.Num) (fields : List (NormalizedMappingField js.Num))
      → Keeps unharmed (transform js env raw fields)
  unfolding transform
  transform-Unharmed raw fields w = ground arith

  pub close_run-Unharmed :
      (pipeline_id id : String) (status : SyncRunStatus) (counts : RunCounts)
      (message : Option String)
      → IsFinished status
      → Keeps unharmed (close_run js env actor pipeline_id id status counts message)
  unfolding close_run
  close_run-Unharmed pipeline_id id status counts message done w =
      let v = (draw env.clock w).1 in
      let m = update_run id (closed_run status counts message (env.clock w.ticks)) v in
      unharmed.trans (Keeps-draw env.clock w) (
        Keeps-continue unharmed m.0 _
          (update_run-Unharmed id status counts message (env.clock w.ticks) done v)
          (λ r.
            let u = (draw env.clock m.1).1 in
            let touch =
              λ (p : SyncPipeline js.Num). record p { last_run_at = some (env.clock m.1.ticks) } in
            unharmed.trans (Keeps-draw env.clock m.1) (
              Keeps-continue unharmed (update_pipeline pipeline_id touch u).0 _
                (update_pipeline-Unharmed pipeline_id touch u) (λ p. unharmed.self _))))

  fail_run-Unharmed :
      (pipeline_id id message : String)
      → Keeps unharmed (fail_run js env actor pipeline_id id message)
  unfolding fail_run
  fail_run-Unharmed pipeline_id id message w =
      let m = close_run js env actor pipeline_id id failed one_failed (some message) w in
      Keeps-continue unharmed m.0 _
        (close_run-Unharmed pipeline_id id failed one_failed (some message) broken w)
        (λ _.
          let v = (log "transformation_failed" "sync_run" id (actor_id actor) m.1).1 in
          unharmed.trans (Keeps-log "transformation_failed" "sync_run" id (actor_id actor) m.1)
            (Keeps-log "sync_run_failed" "sync_run" id (actor_id actor) v))

  settle_payload-Unharmed :
      (pipeline_id : String) (payload : Fields js.Num) (external_id id : String)
      (normalized : Fields js.Num) (errors : List TransformationErrorDetail)
      → Keeps unharmed
          (settle_payload js env actor pipeline_id payload external_id id normalized errors)
  unfolding settle_payload
  settle_payload-Unharmed pipeline_id payload external_id id normalized (e ∷ errors) w =
      fail_run-Unharmed pipeline_id id "One or more records failed during processing." w
  settle_payload-Unharmed pipeline_id payload external_id id normalized [] w =
      let row = webhook_row js env actor pipeline_id payload external_id id normalized in
      let made = create_synced_record env row w in
      let m = close_run js env actor pipeline_id id success one_processed none made.1 in
      Keeps-continue unharmed made.0 _ (create_synced_record-Unharmed row w) (λ x.
        Keeps-continue unharmed m.0 _
          (close_run-Unharmed pipeline_id id success one_processed none succeeded made.1)
          (λ _.
            let v = (log "transformation_applied" "sync_run" id (actor_id actor) m.1).1 in
            let u = (log "sync_run_completed" "sync_run" id (actor_id actor) v).1 in
            unharmed.trans (Keeps-log "transformation_applied" "sync_run" id (actor_id actor) m.1) (
              unharmed.trans (Keeps-log "sync_run_completed" "sync_run" id (actor_id actor) v)
                (Keeps-log "synced_record_created" "synced_record" x.id (actor_id actor) u))))

  by_mapping-Unharmed :
      (pipeline_id : String) (payload : Fields js.Num) (external_id id : String)
      (fields : Result MappingError (List (NormalizedMappingField js.Num)))
      → Keeps unharmed (by_mapping js env actor pipeline_id payload external_id id fields)
  unfolding by_mapping
  by_mapping-Unharmed pipeline_id payload external_id id (err e) w =
      fail_run-Unharmed pipeline_id id (mapping_message e) w
  by_mapping-Unharmed pipeline_id payload external_id id (ok fields) w =
      Keeps-continue unharmed (transform js env payload fields w).0 _
        (transform-Unharmed payload fields w)
        (λ p.
          settle_payload-Unharmed pipeline_id payload external_id id p.normalized p.errors
            (transform js env payload fields w).1)

  pub process_webhook_for_pipeline-Unharmed :
      (pipeline_id : String) (mapping payload : Fields js.Num) (external_id id : String)
      → Keeps unharmed
          (process_webhook_for_pipeline js env actor pipeline_id mapping payload external_id id)
  unfolding process_webhook_for_pipeline
  process_webhook_for_pipeline-Unharmed pipeline_id mapping payload external_id id =
      by_mapping-Unharmed pipeline_id payload external_id id (compile_mapping js mapping)

  -- The tables when the turn of a new run comes.
  abbrev pub begun : String → World js.Num → World js.Num
  begun pipeline_id w =
      let v = (draw env.clock w).1 in
      let made = create_run env (started_run pipeline_id (env.clock w.ticks)) v in
      (log "sync_run_started" "sync_run" (env.uuid v.ticks) (actor_id actor) made.1).1

  pub begun-Unharmed : (pipeline_id : String) (w : World js.Num) → Unharmed w (begun pipeline_id w)
  begun-Unharmed pipeline_id w =
      let v = (draw env.clock w).1 in
      let made = create_run env (started_run pipeline_id (env.clock w.ticks)) v in
      unharmed.trans (Keeps-draw env.clock w) (
        unharmed.trans (Keeps-create_run _ v)
          (Keeps-log "sync_run_started" "sync_run" (env.uuid v.ticks) (actor_id actor) made.1))

  -- The runs of an event leave the events, the jobs and the finished runs alone.
  pub process_pipelines-Unharmed :
      (payload : Fields js.Num) (external_id : String) (s : WebhookProcessingSummary)
      (ps : List (SyncPipeline js.Num))
      → Keeps unharmed (process_pipelines js env actor payload external_id s ps)
  unfolding process_pipelines create_run
  process_pipelines-Unharmed payload external_id s [] w = unharmed.self w
  process_pipelines-Unharmed payload external_id s (p ∷ ps) w =
      let id = env.uuid (suc w.ticks) in
      let v = begun p.id w in
      let m =
        process_webhook_for_pipeline js env actor p.id p.mapping_json payload external_id id v in
      unharmed.trans (begun-Unharmed p.id w) (
        Keeps-continue unharmed m.0 _
          (process_webhook_for_pipeline-Unharmed p.id p.mapping_json payload external_id id v)
          (λ c. process_pipelines-Unharmed payload external_id (counted p.id id c s) ps m.1))

-- ===== src/Webhooks/Process/Each.antt =====
-- apps/api/src/webhooks/webhooks.service.ts: the run that each pipeline of an event gets.
use mathlib.Core.Path.{subst}
use mathlib.Core.List.{append-nil, append_assoc}
use sync_bridge_platform.Base.{ℕ, ◌+◌, String, List, [], ◌∷◌, ◌++◌, map, ◌≡◌, refl, sym, ◌∙◌, arith}
use sync_bridge_platform.Database.{
  queued, running, success, failed, cancelled, webhook, SyncRunStatus, SyncPipeline, SyncRun,
  update,
}
use sync_bridge_platform.Database.Laws.{HasDistinctIds, HasDistinctIds-prefix, update-last}
use sync_bridge_platform.Webhooks.Process.{
  RunCounts, WebhookProcessingSummary, counted, started_run,
}
use sync_bridge_platform.Webhooks.Process.Runs.{IsFinished, succeeded, broken}
use sync_bridge_platform.Webhooks.Process.Trail.{
  IsClosing, as_success, as_failed, Trail, over, turn,
}

-- The finished run of a pipeline for an event.
pub record IsRunOf {N : Type 0} (p : SyncPipeline N) (r : SyncRun) : Type 0 where
  pub pipeline : r.pipeline_id ≡ p.id
  pub trigger : r.trigger_type ≡ webhook
  pub finished : IsFinished r.status

-- One run for each pipeline, in order.
abbrev pub AreRunsOf : {N : Type 0} → List (SyncPipeline N) → List SyncRun → Type 0
AreRunsOf [] [] = Unit {0}
AreRunsOf [] (r ∷ rs) = ⊥
AreRunsOf (p ∷ ps) [] = ⊥
AreRunsOf (p ∷ ps) (r ∷ rs) = IsRunOf p r × AreRunsOf ps rs

one_if_success : SyncRunStatus → ℕ
one_if_success success = 1
one_if_success failed = 0
one_if_success queued = 0
one_if_success running = 0
one_if_success cancelled = 0

one_if_failed : SyncRunStatus → ℕ
one_if_failed success = 0
one_if_failed failed = 1
one_if_failed queued = 0
one_if_failed running = 0
one_if_failed cancelled = 0

unfoldable pub num_succeeded : List SyncRun → ℕ
unfolding one_if_success
num_succeeded [] = 0
num_succeeded (r ∷ rs) = one_if_success r.status + num_succeeded rs

unfoldable pub num_failed : List SyncRun → ℕ
unfolding one_if_failed
num_failed [] = 0
num_failed (r ∷ rs) = one_if_failed r.status + num_failed rs

-- The table of runs has grown by one finished run for each pipeline, in order, and the summary `s` has
-- become `t` by their ids and by the numbers of those that succeeded and failed.
pub record EachRan {N : Type 0} (ps : List (SyncPipeline N)) (s : WebhookProcessingSummary)
    (rows : List SyncRun) (t : WebhookProcessingSummary) (rows' : List SyncRun) : Type 0 where
  pub runs : List SyncRun
  pub appended : rows' ≡ rows ++ runs
  pub own : AreRunsOf ps runs
  pub status : t.status ≡ s.status
  pub pipeline_ids : t.pipeline_ids ≡ s.pipeline_ids ++ map (λ p. p.id) ps
  pub sync_run_ids : t.sync_run_ids ≡ s.sync_run_ids ++ map (λ r. r.id) runs
  pub processed : t.records_processed ≡ s.records_processed + num_succeeded runs
  pub failed : t.records_failed ≡ s.records_failed + num_failed runs

closing_keeps_id :
    (change : SyncRun → SyncRun) (c : RunCounts)
    → IsClosing change c
    → (r : SyncRun) → (change r).id ≡ r.id
closing_keeps_id change c (as_success n) r = refl
closing_keeps_id change c (as_failed m n) r = refl

module _ {N : Type 0} where
  -- One more run before others.
  EachRan-turn :
      (p : SyncPipeline N) (ps : List (SyncPipeline N)) (s t : WebhookProcessingSummary)
      (rows rows' : List SyncRun)
      → (id : String) (started_at : ℕ) (change : SyncRun → SyncRun) (c : RunCounts)
      → IsClosing change c
      → EachRan ps
          (counted p.id id c s)
          (rows ++ change (started_run p.id started_at id) ∷ [])
          t
          rows'
      → EachRan (p ∷ ps) s rows t rows'
  unfolding num_succeeded num_failed
  EachRan-turn p ps s t rows rows' id at change c (as_success n) e = record {
    runs = change (started_run p.id at id) ∷ e.runs;
    appended = e.appended ∙ append_assoc rows (change (started_run p.id at id) ∷ []) e.runs;
    own = (record { pipeline = refl; trigger = refl; finished = succeeded }, e.own);
    status = e.status;
    pipeline_ids = e.pipeline_ids ∙ append_assoc s.pipeline_ids (p.id ∷ []) (map (λ q. q.id) ps);
    sync_run_ids = e.sync_run_ids ∙ append_assoc s.sync_run_ids (id ∷ []) (map (λ r. r.id) e.runs);
    processed = omega (arith, e.processed);
    failed = omega (arith, e.failed);
  }
  EachRan-turn p ps s t rows rows' id at change c (as_failed m n) e = record {
    runs = change (started_run p.id at id) ∷ e.runs;
    appended = e.appended ∙ append_assoc rows (change (started_run p.id at id) ∷ []) e.runs;
    own = (record { pipeline = refl; trigger = refl; finished = broken }, e.own);
    status = e.status;
    pipeline_ids = e.pipeline_ids ∙ append_assoc s.pipeline_ids (p.id ∷ []) (map (λ q. q.id) ps);
    sync_run_ids = e.sync_run_ids ∙ append_assoc s.sync_run_ids (id ∷ []) (map (λ r. r.id) e.runs);
    processed = omega (arith, e.processed);
    failed = omega (arith, e.failed);
  }

  -- Where the ids of the table are distinct in the end, each run was one of its own.
  pub Trail-EachRan :
      (ps : List (SyncPipeline N)) (s t : WebhookProcessingSummary) (rows rows' : List SyncRun)
      → Trail ps s rows t rows'
      → HasDistinctIds (λ r. r.id) rows'
      → EachRan ps s rows t rows'
  unfolding num_succeeded num_failed
  Trail-EachRan ps s t rows rows' over distinct = record {
    runs = [];
    appended = sym (append-nil rows);
    own = tt;
    status = refl;
    pipeline_ids = sym (append-nil s.pipeline_ids);
    sync_run_ids = sym (append-nil s.sync_run_ids);
    processed = omega arith;
    failed = omega arith;
  }
  Trail-EachRan (p ∷ ps) s t rows rows' (turn id at change c closing rest) distinct =
      let row = started_run p.id at id in
      let updated = update (λ (r : SyncRun). r.id) id change (rows ++ row ∷ []) in
      let e = Trail-EachRan ps (counted p.id id c s) t updated rows' rest distinct in
      let own =
        update-last (λ (r : SyncRun). r.id) change rows row (closing_keeps_id change c closing)
          (HasDistinctIds-prefix (λ (r : SyncRun). r.id) updated e.runs
            (subst (HasDistinctIds (λ (r : SyncRun). r.id)) e.appended distinct)) in
      EachRan-turn p ps s t rows rows' id at change c closing
        (subst (λ (x : List SyncRun). EachRan ps (counted p.id id c s) x t rows') own e)

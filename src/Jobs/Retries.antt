-- ===== src/Jobs/Retries.antt =====
-- Messages that the queue library hands to apps/api/src/workers/sync-run.processor.ts and
-- apps/api/src/workers/webhook-event.processor.ts again, as `attempts` of `enqueueJob` in
-- apps/api/src/jobs/jobs.service.ts asks it to: after a try that threw, as long as tries are left.
pub mod Events
use sync_bridge_platform.Base.{
  ℕ, suc, ◌+◌, ◌≤◌, ◌<◌, String, Option, none, some, ◌≡◌, refl, sym, ◌⊎◌, inl, inr, arith, Result,
  ok, err, Bool-cases, ltb,
}
use mathlib.Core.Path.{subst}
use sync_bridge_platform.Js.{Js}
use sync_bridge_platform.Database.{
  success, failed, completed, SyncPipeline, SyncRun, SyncRunStatus, BackgroundJob,
  ExecuteSyncRunJobPayload, ProcessWebhookEventJobPayload, WebhookEvent, World,
}
use sync_bridge_platform.Database.Laws.{find-id}
use sync_bridge_platform.Effects.{Error, Env, M}
use sync_bridge_platform.SyncRuns.Tables.{find_job, find_run, find_pipeline}
use sync_bridge_platform.SyncRuns.Execute.{final_status}
use sync_bridge_platform.SyncRuns.Worker.Rows.{Rows}
use sync_bridge_platform.SyncRuns.Worker.Laws.{
  Settled, went_through, threw, process_queued_sync_run_settles,
}
use sync_bridge_platform.Jobs.Queue.{QueueSettings, process_sync_run_job}

-- The tries at one message so far: their number less one, what the last one gave, and the tables behind it.
-- Between two tries other handlers run.
pub data Tries {N : Type 0} (attempt : ℕ → M N (Unit {0})) (Meanwhile : World N → World N → Type 0)
    (allowed : ℕ) (v : World N) : ℕ → Result Error (Unit {0}) → World N → Type 0 where
  first : 0 < allowed → Tries attempt Meanwhile allowed v 0 (attempt 0 v).0 (attempt 0 v).1
  again :
      {made : ℕ} {e : Error} {u : World N} (x : World N)
      → Tries attempt Meanwhile allowed v made (err e) u
      → Meanwhile u x
      → suc made < allowed
      → Tries attempt Meanwhile allowed v
          (suc made)
          (attempt (suc made) x).0
          (attempt (suc made) x).1

-- What every try leaves behind it, if other handlers keep what the next try needs.
pub tries_leave :
    {N : Type 0} {attempt : ℕ → M N (Unit {0})} {Meanwhile : World N → World N → Type 0}
    (Ready : World N → Type 0) (IsEnd : ℕ → Result Error (Unit {0}) → World N → Type 0)
    → ((made : ℕ) (w : World N) → Ready w → IsEnd made (attempt made w).0 (attempt made w).1)
    → ((made : ℕ) (e : Error) (u x : World N) → IsEnd made (err e) u → Meanwhile u x → Ready x)
    → (allowed : ℕ) {v : World N} → Ready v
    → {made : ℕ} {result : Result Error (Unit {0})} {w : World N}
    → Tries attempt Meanwhile allowed v made result w
    → IsEnd made result w × (made + 1 ≤ allowed)
tries_leave Ready IsEnd each still allowed ready (first some_allowed) =
    (each 0 _ ready, omega (arith, some_allowed))
tries_leave Ready IsEnd each still allowed ready
      (again {made = made} {e} {u} x tries meanwhile more_allowed) =
    let last = (tries_leave Ready IsEnd each still allowed ready tries).0 in
    (each (suc made) x (still made e u x last meanwhile), omega (arith, more_allowed))

module _ (js : Js) (env : Env) (payload : ExecuteSyncRunJobPayload js.Num) where
  abbrev HasRows : World js.Num → BackgroundJob → SyncRun → SyncPipeline js.Num → Type 0
  HasRows w j r p = Rows payload.background_job_id payload.sync_run_id payload.pipeline_id w j r p

  abbrev pub IsReady : World js.Num → Type 0
  IsReady w = (j : BackgroundJob) × (r : SyncRun) × (p : SyncPipeline js.Num) × HasRows w j r p

  -- Other handlers may change the rows that the message is about, but they leave them in the tables.
  pub record LeavesRows (u w : World js.Num) : Type 0 where
    pub left : IsReady u → IsReady w

  -- The job and the run say the same, and what they say fits to what the try gave.
  abbrev pub Agree : Result Error (Unit {0}) → BackgroundJob → SyncRun → Type 0
  Agree (ok done) j r = (j.status ≡ completed) × ((r.status ≡ success) ⊎ (r.status ≡ failed))
  Agree (err e) j r = (j.status ≡ failed) × (r.status ≡ failed) × (j.last_error ≡ r.error_message)

  pub record IsEnded (made : ℕ) (result : Result Error (Unit {0})) (w : World js.Num) : Type 0 where
    pub job : BackgroundJob
    pub run : SyncRun
    pub pipeline : SyncPipeline js.Num
    pub rows : HasRows w job run pipeline
    pub agree : Agree result job run
    pub attempts : job.attempts ≡ made + 1

  final_status_cases : (n : ℕ) → (final_status n ≡ success) ⊎ (final_status n ≡ failed)
  unfolding final_status
  final_status_cases n = elim (Bool-cases (ltb 0 n)) [ inl e ↦ inr (rw e) | inr e ↦ inl (rw e) ]

  Rows-rename :
      {job_id run_id pipeline_id job_id' run_id' pipeline_id' : String} {w : World js.Num}
      {j : BackgroundJob} {r : SyncRun} {p : SyncPipeline js.Num}
      → job_id ≡ job_id'
      → run_id ≡ run_id'
      → pipeline_id ≡ pipeline_id'
      → Rows job_id run_id pipeline_id w j r p
      → Rows job_id' run_id' pipeline_id' w j r p
  Rows-rename {w = w} {j} {r} {p} a b c rows = record {
    job = subst (λ id. find_job id w.background_jobs ≡ some j) a rows.job;
    run = subst (λ id. find_run id w.sync_runs ≡ some r) b rows.run;
    pipeline = subst (λ id. find_pipeline id w.pipelines ≡ some p) c rows.pipeline;
  }

  -- The rows of an attempt go by their own ids, which are those of the message.
  ended :
      {made : ℕ} {result : Result Error (Unit {0})} {w w' : World js.Num} {j j' : BackgroundJob}
      {r r' : SyncRun} {p p' : SyncPipeline js.Num}
      → HasRows w j r p
      → Rows j.id r.id p.id w' j' r' p'
      → Agree result j' r'
      → j'.attempts ≡ made + 1
      → IsEnded made result w'
  ended {w = w} {j = j} {j'} {r} {r'} {p} {p'} before after agree attempts = record {
    job = j';
    run = r';
    pipeline = p';
    rows =
        Rows-rename
          (find-id (λ (y : BackgroundJob). y.id) payload.background_job_id w.background_jobs j
            before.job)
          (find-id (λ (y : SyncRun). y.id) payload.sync_run_id w.sync_runs r before.run)
          (find-id (λ (y : SyncPipeline js.Num). y.id) payload.pipeline_id w.pipelines p
            before.pipeline)
          after;
    agree = agree;
    attempts = attempts;
  }

  Settled-IsEnded :
      {made : ℕ} {w : World js.Num} {j : BackgroundJob} {r : SyncRun} {p : SyncPipeline js.Num}
      {result : Result Error (Unit {0})} {w' : World js.Num}
      → HasRows w j r p
      → Settled js env payload (made + 1) w j r p result w'
      → IsEnded made result w'
  Settled-IsEnded before (went_through s v w' q did after time) =
      ended before after (refl, final_status_cases s.records_failed) refl
  Settled-IsEnded before (threw e v w' q did message same after time) =
      ended before after (refl, refl, refl) refl

  abbrev attempt : ℕ → M js.Num (Unit {0})
  attempt made = process_sync_run_job js env "execute-sync-run" payload made

  attempt-IsEnded :
      (made : ℕ) (w : World js.Num) → IsReady w → IsEnded made (attempt made w).0 (attempt made w).1
  unfolding process_sync_run_job
  attempt-IsEnded made w (j, r, p, rows) =
      Settled-IsEnded rows (process_queued_sync_run_settles js env payload (made + 1) w j r p rows)

  -- However often the queue tries a message for a run that is in the tables with its job and its pipeline,
  -- and whatever other handlers do to the three rows in between, short of removing them: behind every
  -- try the job and the run are closed and agree. If the last try returned, the job is COMPLETED and
  -- the run SUCCESS or FAILED; if it threw, both are FAILED with the same message. The job counts the
  -- tries, and there are at most as many as the settings allow.
  pub sync_run_tries-IsEnded :
      (s : QueueSettings) (v : World js.Num)
      → IsReady v
      → {made : ℕ} {result : Result Error (Unit {0})} {w : World js.Num}
      → Tries attempt LeavesRows s.default_attempts v made result w
      → IsEnded made result w × (made + 1 ≤ s.default_attempts)
  sync_run_tries-IsEnded s v ready tries =
      tries_leave IsReady IsEnded attempt-IsEnded
        (λ made e u x last meanwhile. meanwhile.left (last.job, last.run, last.pipeline, last.rows))
        s.default_attempts ready tries

-- ===== src/Scheduler/Due.antt =====
-- apps/api/src/scheduler/scheduler.service.ts: `enqueueDuePipelines`.
pub mod Laws
pub mod Order
use sync_bridge_platform.Base.{
  or_else, is_there, ℕ, suc, String, Bool, true, false, not, ◌&&◌, ◌||◌, Option, none, some, List,
  [], ◌∷◌, ok, err, keep, length, leb, trim, is_empty, if◌then◌else◌,
}
use sync_bridge_platform.Js.{Js}
use sync_bridge_platform.Database.{operator, SyncPipeline}
use sync_bridge_platform.Effects.{Env, M, pure, gets, draw, log, ◌>>=◌, ◌>>◌}
use sync_bridge_platform.SyncRuns.Tables.{Actor, update_pipeline}
use sync_bridge_platform.SyncRuns.Execute.{has_active_run, create_scheduled_for_pipeline}
use sync_bridge_platform.Webhooks.Tables.{is_active_status}
use sync_bridge_platform.Scheduler.Validation.{Calendar, validate_cron_expression, next_run_at}

pub record PollSummary : Type 0 where
  pub due_pipelines : ℕ
  pub enqueued : ℕ
  pub skipped : ℕ

abbrev pub is_by : ℕ → Option ℕ → Bool
is_by now none = false
is_by now (some t) = leb t now

-- `a.nextRunAt <= b.nextRunAt` for rows that have one.
abbrev pub no_later : Option ℕ → Option ℕ → Bool
no_later (some s) (some t) = leb s t
no_later _ _ = true

-- `(pipeline.scheduleTimezone ?? 'UTC').trim() || 'UTC'`
abbrev or_utc : String → String
or_utc timezone = if is_empty timezone then "UTC" else timezone

module _ {N : Type 0} where
  abbrev pub is_due : ℕ → SyncPipeline N → Bool
  is_due now p =
      is_active_status p.status
      && p.schedule_enabled
      && is_there p.schedule_cron
      && is_by now p.next_run_at

  -- `orderBy: { nextRunAt: 'asc' }`; rows of the same time stay in the order of the table.
  unfoldable pub insert_by_time : SyncPipeline N → List (SyncPipeline N) → List (SyncPipeline N)
  insert_by_time p [] = p ∷ []
  insert_by_time p (q ∷ qs) =
      let rest = insert_by_time p qs in
      if no_later p.next_run_at q.next_run_at then p ∷ q ∷ qs else q ∷ rest

  unfoldable pub order_by_time : List (SyncPipeline N) → List (SyncPipeline N)
  order_by_time [] = []
  order_by_time (p ∷ ps) = insert_by_time p (order_by_time ps)

  unfoldable pub due_pipelines : ℕ → List (SyncPipeline N) → List (SyncPipeline N)
  due_pipelines now ps = order_by_time (keep (is_due now) ps)

  abbrev pub cron_of : SyncPipeline N → String
  cron_of p = trim (or_else p.schedule_cron "")

  abbrev pub timezone_of : SyncPipeline N → String
  timezone_of p = or_utc (trim (or_else p.schedule_timezone "UTC"))

  abbrev pub actor_of : SyncPipeline N → Actor
  actor_of p = record { sub = p.owner_id; role = operator }

abbrev pub one_skipped : PollSummary → PollSummary
one_skipped s = record s { skipped = suc s.skipped }

abbrev pub one_enqueued : PollSummary → PollSummary
one_enqueued s = record s { enqueued = suc s.enqueued }

module _ (calendar : Calendar) (js : Js) (env : Env) where
  abbrev pub is_misconfigured : SyncPipeline js.Num → Bool
  is_misconfigured p =
      is_empty (cron_of p)
      || not (calendar.validate_timezone (timezone_of p))
      || not ((validate_cron_expression calendar (cron_of p)).valid)

  -- One turn of the loop behind the check of the configuration.
  unfoldable pub unless_active : ℕ → SyncPipeline js.Num → PollSummary → Bool → M js.Num PollSummary
  unless_active now p s true = do
    log "scheduled_pipeline_skipped" "pipeline" p.id (some p.owner_id)
    pure (one_skipped s)
  unless_active now p s false = do
    run ← create_scheduled_for_pipeline js env p.id [] false (some (actor_of p))
    next ← next_run_at calendar (cron_of p) (timezone_of p) now
    q ← update_pipeline p.id (λ q. record q { next_run_at = next })
    log "scheduled_sync_enqueued" "pipeline" p.id (some p.owner_id)
    pure (one_enqueued s)

  unfoldable pub unless_misconfigured :
      ℕ → SyncPipeline js.Num → PollSummary → Bool → M js.Num PollSummary
  unfolding unless_active
  unless_misconfigured now p s true = do
    log "scheduled_pipeline_skipped" "pipeline" p.id (some p.owner_id)
    pure (one_skipped s)
  unless_misconfigured now p s false = do
    active_run ← gets (has_active_run p.id)
    unless_active now p s active_run

  unfoldable pub enqueue_all : ℕ → PollSummary → List (SyncPipeline js.Num) → M js.Num PollSummary
  unfolding unless_misconfigured
  enqueue_all now s [] = pure s
  enqueue_all now s (p ∷ ps) =
      unless_misconfigured now p s (is_misconfigured p) >>= λ t. enqueue_all now t ps

  unfoldable pub enqueue_due_pipelines : M js.Num PollSummary
  enqueue_due_pipelines = do
    now ← draw env.clock
    due ← gets (λ w. due_pipelines now w.pipelines)
    enqueue_all now (record { due_pipelines = length due; enqueued = 0; skipped = 0 }) due

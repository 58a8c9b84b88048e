-- ===== src/Scheduler/Due/Laws.antt =====
-- apps/api/src/scheduler/scheduler.service.ts: what a round over the pipelines that are due does.
use sync_bridge_platform.Base.{
  ℕ, ◌+◌, Bool, true, false, some, List, [], ◌∷◌, ◌≡◌, refl, ap, ◌∙◌, arith, ok, keep, length,
  ok-injective,
}
use sync_bridge_platform.Js.{Js}
use sync_bridge_platform.Database.{SyncPipeline, World}
use sync_bridge_platform.Effects.{Env, draw}
use sync_bridge_platform.Effects.Frame.{Frame, Keeps-continue, Returns, Returns-continue}
use sync_bridge_platform.SyncRuns.Tables.{update_pipeline}
use sync_bridge_platform.SyncRuns.Execute.{has_active_run, create_scheduled_for_pipeline}
use sync_bridge_platform.SyncRuns.Execute.Active.{
  active_in, IsSingle, grown, create_scheduled_for_pipeline-Grows,
}
use sync_bridge_platform.Scheduler.Validation.{Calendar, next_run_at}
use sync_bridge_platform.Scheduler.Due.Order.{length-order_by_time}
use sync_bridge_platform.Scheduler.Due.{
  PollSummary, is_due, due_pipelines, cron_of, timezone_of, actor_of, is_misconfigured,
  unless_active, unless_misconfigured, enqueue_all, enqueue_due_pipelines,
}

-- The pipelines stay single, and that is all that is said of the tables.
abbrev single : {N : Type 0} → Frame N
single = record { Rel = λ v w. IsSingle v → IsSingle w; self = λ w h. h; trans = λ a b h. b (a h) }

alike : {N : Type 0} (v w : World N) → w.sync_runs ≡ v.sync_runs → IsSingle v → IsSingle w
alike v w same once = record {
  at_most_one = λ q. omega (arith, ap (active_in q) same, once.at_most_one q);
}

-- What a round counts.
abbrev pub Counts : {N : Type 0} → PollSummary → ℕ → PollSummary → World N → Type 0
Counts s n t w =
    (t.due_pipelines ≡ s.due_pipelines) × (t.enqueued + t.skipped ≡ s.enqueued + s.skipped + n)

module _ (calendar : Calendar) (js : Js) (env : Env) (now : ℕ) where
  unless_active-IsSingle :
      (p : SyncPipeline js.Num) (s : PollSummary) (w : World js.Num) (b : Bool)
      → has_active_run p.id w ≡ b
      → IsSingle w
      → IsSingle (unless_active calendar js env now p s b w).1
  unfolding unless_active update_pipeline next_run_at
  unless_active-IsSingle p s w true busy once = alike w _ refl once
  unless_active-IsSingle p s w false idle once =
      let m = create_scheduled_for_pipeline js env p.id [] false (some (actor_of p)) w in
      let first : IsSingle m.1 =
        grown p.id w m.1 idle
          (create_scheduled_for_pipeline-Grows js env p.id [] false (some (actor_of p)) w) once in
      Keeps-continue single m.0 _ {w = w} {v = m.1} (λ _. first)
        (λ run.
          let n = next_run_at calendar (cron_of p) (timezone_of p) now m.1 in
          Keeps-continue single n.0 _ {w = m.1} {v = n.1} (alike m.1 n.1 refl) (λ next.
            let o =
              update_pipeline p.id (λ (q : SyncPipeline js.Num). record q { next_run_at = next })
                n.1 in
            Keeps-continue single o.0 _ {w = n.1} {v = o.1} (λ h. alike n.1 o.1 (ground arith) h)
              (λ q. alike o.1 _ refl)))
        once

  unless_misconfigured-IsSingle :
      (p : SyncPipeline js.Num) (s : PollSummary) (b : Bool) (w : World js.Num)
      → IsSingle w
      → IsSingle (unless_misconfigured calendar js env now p s b w).1
  unfolding unless_misconfigured
  unless_misconfigured-IsSingle p s true w once = alike w _ refl once
  unless_misconfigured-IsSingle p s false w once =
      unless_active-IsSingle p s w (has_active_run p.id w) refl once

  enqueue_all-IsSingle :
      (ps : List (SyncPipeline js.Num)) (s : PollSummary) (w : World js.Num)
      → IsSingle w
      → IsSingle (enqueue_all calendar js env now s ps w).1
  unfolding enqueue_all
  enqueue_all-IsSingle [] s w once = once
  enqueue_all-IsSingle (p ∷ ps) s w once =
      let b = is_misconfigured calendar js env p in
      let m = unless_misconfigured calendar js env now p s b w in
      Keeps-continue single m.0 _ {w = w} {v = m.1} (unless_misconfigured-IsSingle p s b w)
        (λ t. enqueue_all-IsSingle ps t m.1) once

  unless_active-Counts :
      (p : SyncPipeline js.Num) (s : PollSummary) (b : Bool) (w : World js.Num)
      → Returns (Counts s 1) (unless_active calendar js env now p s b w)
  unfolding unless_active
  unless_active-Counts p s true w = λ t same. ground (arith, ok-injective same)
  unless_active-Counts p s false w =
      let m = create_scheduled_for_pipeline js env p.id [] false (some (actor_of p)) w in
      let n = next_run_at calendar (cron_of p) (timezone_of p) now m.1 in
      Returns-continue (Counts s 1) m.0 _ m.1 (λ run _.
        Returns-continue (Counts s 1) n.0 _ n.1 (λ next _.
          let o =
            update_pipeline p.id (λ (q : SyncPipeline js.Num). record q { next_run_at = next })
              n.1 in
          Returns-continue (Counts s 1) o.0 _ o.1
            (λ q _ t same. ground (arith, ok-injective same))))

  unless_misconfigured-Counts :
      (p : SyncPipeline js.Num) (s : PollSummary) (b : Bool) (w : World js.Num)
      → Returns (Counts s 1) (unless_misconfigured calendar js env now p s b w)
  unfolding unless_misconfigured
  unless_misconfigured-Counts p s true w = λ t same. ground (arith, ok-injective same)
  unless_misconfigured-Counts p s false w = unless_active-Counts p s (has_active_run p.id w) w

  enqueue_all-Counts :
      (ps : List (SyncPipeline js.Num)) (s : PollSummary) (w : World js.Num)
      → Returns (Counts s (length ps)) (enqueue_all calendar js env now s ps w)
  unfolding enqueue_all
  enqueue_all-Counts [] s w = λ t same. ground (arith, ok-injective same)
  enqueue_all-Counts (p ∷ ps) s w =
      let b = is_misconfigured calendar js env p in
      let m = unless_misconfigured calendar js env now p s b w in
      Returns-continue (Counts s (length (p ∷ ps))) m.0 _ m.1 (λ t first u same.
        let (due, sum) = unless_misconfigured-Counts p s b w t first in
        let (due', sum') = enqueue_all-Counts ps t m.1 u same in
        (due' ∙ due, omega (arith, sum, sum')))

module _ (calendar : Calendar) (js : Js) (env : Env) where
  -- If a round over the pipelines that are due returns, its count of them is the number of rows that are
  -- ACTIVE, enabled, have an expression and a time of the next run that has come, and it is the sum of
  -- those enqueued and those skipped.
  pub enqueue_due_pipelines-Counts :
      (w : World js.Num) (t : PollSummary)
      → (enqueue_due_pipelines calendar js env w).0 ≡ ok t
      → (t.due_pipelines ≡ length (keep (is_due (env.clock w.ticks)) w.pipelines))
        × (t.enqueued + t.skipped ≡ t.due_pipelines)
  unfolding enqueue_due_pipelines due_pipelines
  enqueue_due_pipelines-Counts w t same =
      let now = env.clock w.ticks in
      let due = due_pipelines now w.pipelines in
      let (all, sum) =
        enqueue_all-Counts calendar js env now due
          (record { due_pipelines = length due; enqueued = 0; skipped = 0 }) (draw env.clock w).1 t
          same in
      let number = length-order_by_time (keep (is_due now) w.pipelines) in
      (all ∙ number, omega (arith, all, sum))

  -- If no pipeline has two runs that are queued or running, no pipeline has two after a round either,
  -- whether the round returned or threw.
  pub enqueue_due_pipelines-IsSingle :
      (w : World js.Num) → IsSingle w → IsSingle (enqueue_due_pipelines calendar js env w).1
  unfolding enqueue_due_pipelines
  enqueue_due_pipelines-IsSingle w once =
      enqueue_all-IsSingle calendar js env (env.clock w.ticks)
        (due_pipelines (env.clock w.ticks) w.pipelines) _ (draw env.clock w).1 (alike w _ refl once)

-- ===== src/Scheduler/Schedule/Laws.antt =====
-- apps/api/src/scheduler/scheduler.service.ts: what a schedule is that was accepted, and when a pipeline
-- can be triggered.
use mathlib.Core.Path.{subst}
use sync_bridge_platform.Base.{
  ℕ, String, Bool, true, false, ◌&&◌, Option, some, ◌≡◌, refl, sym, ◌∙◌, ap, inl, inr, arith, ok,
  Bool-cases, Option-cases, Result-cases, ok-injective,
}
use sync_bridge_platform.Database.{SyncPipeline, PipelineStatus, World, active, paused, archived}
use sync_bridge_platform.Database.Laws.{find-update_self, find-id}
use sync_bridge_platform.Cron.Parse.{ParsedCron, parse_cron_expression}
use sync_bridge_platform.Cron.Next.{compute_next_run_at}
use sync_bridge_platform.Effects.{Env, pure, draw, log, ◌>>◌}
use sync_bridge_platform.Effects.Frame.{Returns, Returns-continue}
use sync_bridge_platform.SyncRuns.Tables.{Actor, find_pipeline, update_pipeline}
use sync_bridge_platform.SyncRuns.Execute.{get_by_id, find_one}
use sync_bridge_platform.Webhooks.Tables.{is_active_status}
use sync_bridge_platform.Scheduler.Validation.{
  Calendar, clock_of, validate_cron_expression, next_run_at,
}
use sync_bridge_platform.Scheduler.Schedule.{
  UpdatePipelineScheduleDto, EffectiveSchedule, is_archived, effective_schedule, scheduled_pipeline,
  check_schedule, next_or_none, log_change, update_pipeline_schedule,
}

-- A pipeline whose schedule can be carried out: if the schedule is enabled, the pipeline is not archived and
-- has an expression that parses and a valid time zone; for an active pipeline the time of the next run is
-- then what is computed from the time of the change, and in all other cases there is none.
pub record IsScheduled (calendar : Calendar) {N : Type 0} (base_time : ℕ) (p : SyncPipeline N)
    : Type 0 where
  pub expression :
      p.schedule_enabled ≡ true
      → (cron : String) × (p.schedule_cron ≡ some cron)
        × (parsed : ParsedCron) × (parse_cron_expression calendar.integer_of calendar.shown cron
            ≡ ok parsed)
  pub timezone :
      p.schedule_enabled ≡ true
      → (zone : String) × (p.schedule_timezone ≡ some zone)
        × (calendar.validate_timezone zone ≡ true)
  pub not_archived : p.schedule_enabled ≡ true → is_archived p.status ≡ false
  pub next :
      p.schedule_enabled ≡ true
      → p.status ≡ active
      → (cron : String) × (zone : String) × (p.schedule_cron ≡ some cron)
        × (p.schedule_timezone ≡ some zone)
        × (compute_next_run_at (clock_of calendar) zone cron base_time ≡ ok p.next_run_at)
  pub only : (t : ℕ) → p.next_run_at ≡ some t → (p.schedule_enabled ≡ true) × (p.status ≡ active)

status_active : (status : PipelineStatus) → is_active_status status ≡ true → status ≡ active
status_active active h = refl
status_active paused h = absurd (ground (arith, h))
status_active archived h = absurd (ground (arith, h))

module _ (calendar : Calendar) where
  valid_parses :
      (cron : String)
      → (validate_cron_expression calendar cron).valid ≡ true
      → (parsed : ParsedCron) × (parse_cron_expression calendar.integer_of calendar.shown cron
          ≡ ok parsed)
  unfolding validate_cron_expression
  valid_parses cron valid =
      elim (Result-cases (parse_cron_expression calendar.integer_of calendar.shown cron)) [
        | inl got ↦ got
        | inr (e, bad) ↦ absurd (ground (arith, valid, bad))
      ]

module _ (calendar : Calendar) {N : Type 0} where
  -- The checks passed.
  check_schedule_ok :
      (status : PipelineStatus) (e : EffectiveSchedule) (w : World N)
      → (check_schedule calendar status e w).0 ≡ ok tt
      → e.enabled ≡ true
      → (is_archived status ≡ false)
        × ((validate_cron_expression calendar e.cron).valid ≡ true)
        × (calendar.validate_timezone e.timezone ≡ true)
  unfolding check_schedule
  check_schedule_ok status e w passed on =
      (ground (arith, passed, on), ground (arith, passed, on), ground (arith, passed, on))

  check_schedule_same :
      (status : PipelineStatus) (e : EffectiveSchedule) (w : World N)
      → (check_schedule calendar status e w).1 ≡ w
  unfolding check_schedule
  check_schedule_same status e w = ground arith

  find_one_ok :
      (id : String) (caller : Actor) (w : World N)
      → Returns (λ p v. (find_pipeline id w.pipelines ≡ some p) × (v ≡ w)) (find_one id caller w)
  unfolding find_one get_by_id
  find_one_ok id caller w p returned = elim (Option-cases (find_pipeline id w.pipelines)) [
    | inl missing ↦ absurd (ground (arith, missing, returned))
    | inr (q, at) ↦ (ground (arith, at, returned), ground (arith, at, returned))
  ]

  -- The row that the update writes is a schedule that can be carried out.
  scheduled_pipeline-IsScheduled :
      (dto : UpdatePipelineScheduleDto) (p : SyncPipeline N) (base : ℕ) (next : Option ℕ)
      (w v : World N)
      → (check_schedule calendar p.status (effective_schedule dto p) w).0 ≡ ok tt
      → (next_or_none calendar
          ((effective_schedule dto p).enabled && is_active_status p.status)
          (effective_schedule dto p)
          base
          v).0
        ≡ ok next
      → IsScheduled calendar base (scheduled_pipeline (effective_schedule dto p) next p)
  unfolding next_or_none next_run_at
  scheduled_pipeline-IsScheduled dto p base next w v passed computed =
      let e = effective_schedule dto p in
      let checked = check_schedule_ok p.status e w passed in
      record {
        expression = λ on.
            let (parsed, parses) = valid_parses calendar e.cron (checked on).1 in
            (e.cron, ground (arith, on), parsed, parses);
        timezone = λ on. (e.timezone, ground (arith, on), (checked on).2);
        not_archived = λ on. (checked on).0;
        next = λ on live.
            let both : (e.enabled && is_active_status p.status) ≡ true =
              ground (arith, on, ap is_active_status live) in
            (
              e.cron,
              e.timezone,
              ground (arith, on),
              ground (arith, on),
              elim (Result-cases (compute_next_run_at (clock_of calendar) e.timezone e.cron base)) [
                | inl (o, got) ↦ got ∙ ap ok (ground (arith, both, computed, got))
                | inr (x, bad) ↦ absurd (ground (arith, both, computed, bad))
              ],
            );
        only = λ t at. elim (Bool-cases (e.enabled && is_active_status p.status)) [
          | inr off ↦ absurd (ground (arith, off, at, computed))
          | inl on ↦ (ground (arith, on), status_active p.status (ground (arith, on)))
        ];
      }

  next_or_none_same :
      (b : Bool) (e : EffectiveSchedule) (t : ℕ) (w : World N)
      → (next_or_none calendar b e t w).1 ≡ w
  unfolding next_or_none next_run_at
  next_or_none_same true e t w = refl
  next_or_none_same false e t w = refl

  update_pipeline_row :
      (p q : SyncPipeline N) (change : SyncPipeline N → SyncPipeline N) (w : World N)
      → ((r : SyncPipeline N) → (change r).id ≡ r.id)
      → find_pipeline p.id w.pipelines ≡ some p
      → (update_pipeline p.id change w).0 ≡ ok q
      → (change p ≡ q)
        × (find_pipeline p.id (update_pipeline p.id change w).1.pipelines ≡ some (change p))
  unfolding update_pipeline
  update_pipeline_row p q change w keeps at wrote = (
    ground (arith, at, wrote),
    ground (
      arith,
      at,
      find-update_self (λ (x : SyncPipeline N). x.id) p.id change w.pipelines p keeps at,
    ),
  )

  -- The entries of the audit log change neither the answer nor the pipelines.
  log_change_after :
      (before after : Bool) (id sub : String) (q : SyncPipeline N) (w : World N)
      → Returns
          (λ r v. (q ≡ r) × (v.pipelines ≡ w.pipelines))
          ((log_change before after id sub >> pure q) w)
  log_change_after false false id sub q w r same = (ok-injective same, refl)
  log_change_after false true id sub q w r same = (ok-injective same, refl)
  log_change_after true false id sub q w r same = (ok-injective same, refl)
  log_change_after true true id sub q w r same = (ok-injective same, refl)

  -- A change of a schedule that returns leaves in the table the row that it answers with, and that row is a
  -- schedule that can be carried out: an enabled one has an expression that parses, a valid time zone and a
  -- pipeline that is not archived. If it is enabled and its pipeline is ACTIVE, its next run is at the
  -- time that `computeNextRunAt` gives for its expression and zone from the time of the change; otherwise,
  -- so for a PAUSED pipeline, whose schedule may be enabled, it has no next run.
  pub update_pipeline_schedule-IsScheduled :
      (env : Env) (id : String) (dto : UpdatePipelineScheduleDto) (caller : Actor) (w : World N)
      (changed : SyncPipeline N)
      → (update_pipeline_schedule calendar env id dto caller w).0 ≡ ok changed
      → IsScheduled calendar (env.clock w.ticks) changed
        × (find_pipeline changed.id
              (update_pipeline_schedule calendar env id dto caller w).1.pipelines
            ≡ some changed)
  unfolding update_pipeline_schedule
  update_pipeline_schedule-IsScheduled env id dto caller w =
      let P = λ (q : SyncPipeline N) (v : World N).
        IsScheduled calendar (env.clock w.ticks) q × (find_pipeline q.id v.pipelines ≡ some q) in
      let m = find_one id caller w in
      Returns-continue P m.0 _ m.1 (λ p got.
        let (at, same) = find_one_ok id caller w p got in
        let e = effective_schedule dto p in
        let c = check_schedule calendar p.status e m.1 in
        Returns-continue P c.0 _ c.1 (λ _ passed.
          let u = (draw env.clock c.1).1 in
          let n =
            next_or_none calendar (e.enabled && is_active_status p.status) e (env.clock c.1.ticks)
              u in
          let start : env.clock c.1.ticks ≡ env.clock w.ticks =
            ap (λ (x : World N). env.clock x.ticks) (check_schedule_same p.status e m.1 ∙ same) in
          Returns-continue P n.0 _ n.1 (λ next computed.
            let fit =
              subst (λ t. IsScheduled calendar t (scheduled_pipeline e next p)) start
                (scheduled_pipeline-IsScheduled dto p (env.clock c.1.ticks) next m.1 u passed
                  computed) in
            let o = update_pipeline p.id (scheduled_pipeline e next) n.1 in
            Returns-continue P o.0 _ o.1 (λ q wrote r answered.
              let here =
                ap (λ (x : World N). x.pipelines)
                  (next_or_none_same (e.enabled && is_active_status p.status) e
                    (env.clock c.1.ticks) u)
                ∙ ap (λ (x : World N). x.pipelines) (check_schedule_same p.status e m.1 ∙ same) in
              let named = find-id (λ (x : SyncPipeline N). x.id) id w.pipelines p at in
              let there : find_pipeline p.id n.1.pipelines ≡ some p =
                ap (find_pipeline p.id) here
                ∙ subst (λ (x : String). find_pipeline x w.pipelines ≡ some p) (sym named) at in
              let (row, found) =
                update_pipeline_row p q (scheduled_pipeline e next) n.1 (λ x. refl) there wrote in
              let logged =
                (log "pipeline_schedule_updated" "pipeline" p.id (some caller.sub) o.1).1 in
              let rest =
                (log_change p.schedule_enabled q.schedule_enabled p.id caller.sub >> pure q)
                  logged in
              let (same_row, same_table) =
                log_change_after p.schedule_enabled q.schedule_enabled p.id caller.sub q logged r
                  answered in
              subst (λ (x : SyncPipeline N). P x rest.1) (row ∙ same_row)
                (fit, ap (find_pipeline p.id) same_table ∙ found)))))

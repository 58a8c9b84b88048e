-- ===== src/Jobs/Laws.antt =====
-- The two ways to a job of apps/api/src/jobs/job-status.service.ts agree, and both respect ownership.
use sync_bridge_platform.Base.{
  String, Bool, true, false, ◌||◌, Option, none, some, List, [], ◌∷◌, ◌==◌, eq_iff, ◌≡◌, refl, ◌⊎◌,
  ◌↔◌, arith, ok, err, inl, inr, Bool-cases, Option-cases,
}
use sync_bridge_platform.Database.{
  sync_run, webhook_processing, BackgroundJob, BackgroundJobType, SyncRun, WebhookEvent,
  SyncPipeline, World,
}
use sync_bridge_platform.Effects.{Error, forbidden, plain}
use sync_bridge_platform.SyncRuns.Tables.{Actor, find_job, find_run, find_pipeline}
use sync_bridge_platform.SyncRuns.Execute.{is_privileged}
use sync_bridge_platform.Webhooks.Tables.{find_event, connector_of}
use sync_bridge_platform.Webhooks.Handlers.{latest_job, owned_by, owner_of}
use sync_bridge_platform.Jobs.{assert_can_access_job, get_job, get_job_by_sync_run_id}

latest_job_of :
    (entity_type entity_id : String) (jobs : List BackgroundJob) (j : BackgroundJob)
    → latest_job entity_type entity_id jobs ≡ some j
    → (j.entity_type ≡ entity_type) × (j.entity_id ≡ entity_id)
unfolding latest_job
latest_job_of entity_type entity_id [] j h = absurd (ground arith)
latest_job_of entity_type entity_id (k ∷ jobs) j h = ground (
  arith,
  eq_iff k.entity_type entity_type,
  eq_iff k.entity_id entity_id,
  latest_job_of entity_type entity_id jobs j,
)

abbrev no_access : Error
no_access = forbidden "You do not have access to this job"

module _ {N : Type 0} where
  abbrev is_owner : Option (SyncPipeline N) → String → Bool
  is_owner none sub = false
  is_owner (some p) sub = p.owner_id == sub

  abbrev owns_run : Option SyncRun → String → World N → Bool
  owns_run none sub w = false
  owns_run (some run) sub w = is_owner (find_pipeline run.pipeline_id w.pipelines) sub

  abbrev owns_event : Option (WebhookEvent N) → String → World N → Bool
  owns_event none sub w = false
  owns_event (some e) sub w = owned_by (owner_of (connector_of e.connector_id w.connectors)) sub

  abbrev owns_entity : BackgroundJobType → String → String → World N → Bool
  owns_entity sync_run id sub w = owns_run (find_run id w.sync_runs) sub w
  owns_entity webhook_processing id sub w = owns_event (find_event id w.webhook_events) sub w

  -- The owner of what a job is about: the pipeline of the run, or the connector of the event.
  abbrev pub may_see_job : Actor → BackgroundJob → World N → Bool
  may_see_job caller j w = is_privileged caller.role || owns_entity j.type j.entity_id caller.sub w

  -- The check of access either lets the caller pass, who may see what the job is about, or it throws; it
  -- writes nothing.
  abbrev Checked : String → BackgroundJobType → Actor → World N → Type 0
  Checked entity_id type caller w =
      let may = is_privileged caller.role || owns_entity type entity_id caller.sub w in
      ((assert_can_access_job entity_id type caller w ≡ (ok tt, w)) × (may ≡ true))
      ⊎ ((e : Error) × (assert_can_access_job entity_id type caller w ≡ (err e, w)) × (may ≡ false))

  assert_own_run_cases :
      (id : String) (caller : Actor) (w : World N)
      → is_privileged caller.role ≡ false
      → Checked id sync_run caller w
  unfolding assert_can_access_job
  assert_own_run_cases id caller w user = elim (Option-cases (find_run id w.sync_runs)) [
    | inl missing ↦ inr (no_access, ground (arith, missing, user), ground (arith, missing, user))
    | inr (r, at) ↦ elim (Option-cases (find_pipeline r.pipeline_id w.pipelines)) [
      | inl missing ↦ inr (
        plain "Inconsistent query result",
        ground (arith, at, missing, user),
        ground (arith, at, missing, user),
      )
      | inr (p, there) ↦ elim (Bool-cases (p.owner_id == caller.sub)) [
        | inl his ↦ inl (ground (arith, at, there, user, his), ground (arith, at, there, user, his))
        | inr other ↦ inr (
          no_access,
          ground (arith, at, there, user, other),
          ground (arith, at, there, user, other),
        )
      ]
    ]
  ]

  assert_own_event_cases :
      (id : String) (caller : Actor) (w : World N)
      → is_privileged caller.role ≡ false
      → Checked id webhook_processing caller w
  unfolding assert_can_access_job
  assert_own_event_cases id caller w user = elim (Option-cases (find_event id w.webhook_events)) [
    | inl missing ↦ inr (no_access, ground (arith, missing, user), ground (arith, missing, user))
    | inr (e, at) ↦
        elim (Bool-cases
          (owned_by (owner_of (connector_of e.connector_id w.connectors)) caller.sub)) [
            | inl his ↦ inl (ground (arith, at, user, his), ground (arith, at, user, his))
            | inr other ↦
                inr (no_access, ground (arith, at, user, other), ground (arith, at, user, other))
          ]
  ]

  assert_user_cases :
      (id : String) (type : BackgroundJobType) (caller : Actor) (w : World N)
      → is_privileged caller.role ≡ false
      → Checked id type caller w
  assert_user_cases id sync_run caller w user = assert_own_run_cases id caller w user
  assert_user_cases id webhook_processing caller w user = assert_own_event_cases id caller w user

  assert_cases :
      (id : String) (type : BackgroundJobType) (caller : Actor) (w : World N)
      → Checked id type caller w
  unfolding assert_can_access_job
  assert_cases id type caller w = elim (Bool-cases (is_privileged caller.role)) [
    | inl e ↦ inl (rw e refl, rw e refl)
    | inr e ↦ assert_user_cases id type caller w e
  ]

  -- A job that is in the table is shown exactly to privileged callers and to the owner of what it is about, as its
  -- row is; nothing is written, whether the call returns or throws.
  pub get_job-exact :
      (id : String) (caller : Actor) (w : World N) (j : BackgroundJob)
      → find_job id w.background_jobs ≡ some j
      → ((get_job id caller w ≡ (ok j, w)) ↔ (may_see_job caller j w ≡ true))
        × ((get_job id caller w).1 ≡ w)
  unfolding get_job
  get_job-exact id caller w j at = elim (assert_cases j.entity_id j.type caller w) [
    | inl (passed, may) ↦ rw (at, get_job) (rw passed (((λ h. may), λ h. refl), refl))
    | inr (e, thrown, other) ↦ rw (at, get_job) (rw thrown (((λ h. cc), λ h. cc), refl))
  ]

  -- What a job that was found by its run tells of the run.
  by_run :
      (id : String) (caller : Actor) (w : World N) (j : BackgroundJob)
      → get_job_by_sync_run_id id caller w ≡ (ok j, w)
      → (latest_job "sync_run" id w.background_jobs ≡ some j)
        × (is_privileged caller.role || owns_run (find_run id w.sync_runs) caller.sub w ≡ true)
  unfolding get_job_by_sync_run_id
  by_run id caller w j h = elim (Option-cases (find_run id w.sync_runs)) [
    | inl missing ↦ absurd (ground (arith, missing))
    | inr (r, at) ↦ elim (Option-cases (find_pipeline r.pipeline_id w.pipelines)) [
      | inl missing ↦ absurd (ground (arith, at, missing))
      | inr (p, there) ↦ (ground (arith, at, there), ground (arith, at, there))
    ]
  ]

  -- A caller who is given the latest job of a run is given the same job by its id, where that finds the row, a
  -- job of a run.
  pub get_job_by_sync_run_id-get_job :
      (sync_run_id : String) (caller : Actor) (w : World N) (j : BackgroundJob)
      → get_job_by_sync_run_id sync_run_id caller w ≡ (ok j, w)
      → find_job j.id w.background_jobs ≡ some j
      → j.type ≡ sync_run
      → get_job j.id caller w ≡ (ok j, w)
  get_job_by_sync_run_id-get_job sync_run_id caller w j h at typed =
      let (latest, may) = by_run sync_run_id caller w j h in
      let same = (latest_job_of "sync_run" sync_run_id w.background_jobs j latest).1 in
      (get_job-exact j.id caller w j at).0.1 (rw (typed, same) may)

-- ===== src/Dashboard/Laws.antt =====
-- The dashboard of apps/api/src/dashboard/dashboard.service.ts against the listings of the services.
use mathlib.Core.Path.{subst, ap₂}
use sync_bridge_platform.Base.{
  String, Bool, true, false, ◌&&◌, Option, none, some, List, [], ◌∷◌, map, ◌==◌, ◌≡◌, refl, sym, ap,
  ◌∙◌, arith, All, keep, keep-ext, keep-true, keep-ext_of_All, All-mono, length,
  length-latest_first, inl, inr, Bool-cases,
}
use sync_bridge_platform.Js.{Js}
use sync_bridge_platform.Database.{failed, SyncRun, SyncRunStatus, World}
use sync_bridge_platform.Listing.{ListQuery, page_of}
use sync_bridge_platform.SyncRuns.Tables.{Actor}
use sync_bridge_platform.SyncRuns.Execute.{is_privileged}
use sync_bridge_platform.SyncRuns.Listing.{has_status, owned_ids, is_of, list_all}
use sync_bridge_platform.SyncRuns.Listing.Laws.{scoped_page_lem}
use sync_bridge_platform.Webhooks.Listing.{serialize_event, list_events}
use sync_bridge_platform.Connectors.{find_connectors}
use sync_bridge_platform.Pipelines.{find_pipelines}
use sync_bridge_platform.Dashboard.{
  DashboardSummary, is_failed, pipeline_filter, latest_five, summary_of_all, summary_of_own,
  get_summary,
}

is_failed_lem : (r : SyncRun) → is_failed r ≡ has_status (some failed) r
is_failed_lem r = ground arith

and_comm : (a b : Bool) → a && b ≡ b && a
and_comm a b = ground arith

each_of : {A : Type 0} {P : A → Type 0} → ((a : A) → P a) → (xs : List A) → All P xs
each_of f [] = tt
each_of f (x ∷ xs) = (f x, each_of f xs)

abbrev pub first_five : {S : Type 0} → Option S → ListQuery S
first_five status = record { page = some 1; limit = some 5; status = status }

module _ (js : Js) where
  -- A summary that tells what the lists tell.
  pub record AgreesWithLists (caller : Actor) (w : World js.Num) (s : DashboardSummary js.Num)
      : Type 0 where
    pub connectors : s.connectors_count ≡ length (find_connectors caller w)
    pub pipelines : s.pipelines_count ≡ length (find_pipelines caller w)
    pub sync_runs : s.sync_runs_count ≡ (list_all (first_five none) caller w).total
    pub failed_runs : s.failed_runs_count ≡ (list_all (first_five (some failed)) caller w).total
    pub latest_runs : s.latest_runs ≡ (list_all (first_five none) caller w).items
    pub webhook_events : s.webhook_events_count ≡ (list_events js (first_five none) caller w).total
    pub latest_webhook_events :
        map (serialize_event js) s.latest_webhook_events
        ≡ (list_events js (first_five none) caller w).items

  agrees_for_privileged :
      (caller : Actor) (w : World js.Num)
      → is_privileged caller.role ≡ true
      → AgreesWithLists caller w (summary_of_all w)
  unfolding page_of find_connectors find_pipelines list_all list_events
  agrees_for_privileged caller w e = record {
    connectors = rw (e, find_connectors) (sym (length-latest_first w.connectors));
    pipelines = rw (e, find_pipelines) (sym (length-latest_first w.pipelines));
    sync_runs = rw (e, list_all) (ap length (sym (keep-true w.sync_runs)));
    failed_runs = rw (e, list_all) (ap length (keep-ext _ _ w.sync_runs is_failed_lem));
    latest_runs = rw (e, list_all) (ap latest_five (sym (keep-true w.sync_runs)));
    webhook_events = rw (e, list_events) (ap length (sym (keep-true w.webhook_events)));
    latest_webhook_events =
        rw (e, list_events)
          (ap (λ events. map (serialize_event js) (latest_five events))
            (sym (keep-true w.webhook_events)));
  }

  module _ (caller : Actor) (w : World js.Num)
      (named : All (λ r. r.id == "__none__" ≡ false) w.sync_runs) where
    -- The filter of the dashboard takes the runs of the caller's pipelines.
    pipeline_filter_lem :
        (ids : List String) → All (λ r. pipeline_filter ids r ≡ is_of ids r) w.sync_runs
    unfolding pipeline_filter
    pipeline_filter_lem [] = named
    pipeline_filter_lem (id ∷ ids) = each_of (λ r. refl) w.sync_runs

    own_runs :
        (ids : List String) (status : Option SyncRunStatus) (p : SyncRun → Bool)
        → ((r : SyncRun) → p r ≡ has_status status r)
        → keep (λ r. pipeline_filter ids r && p r) w.sync_runs
          ≡ keep (λ r. has_status status r && is_of ids r) w.sync_runs
    own_runs ids status p same = keep-ext_of_All _ _ w.sync_runs (
        All-mono w.sync_runs
          (λ r e. ap₂ (λ a b. a && b) e (same r) ∙ and_comm (is_of ids r) (has_status status r))
          (pipeline_filter_lem ids))

    agrees_for_others :
        is_privileged caller.role ≡ false → AgreesWithLists caller w (summary_of_own caller w)
    unfolding page_of find_connectors find_pipelines list_all list_events
    agrees_for_others e = record {
      connectors =
          rw (e, find_connectors)
            (sym (length-latest_first (keep (λ c. c.owner_id == caller.sub) w.connectors)));
      pipelines =
          rw (e, find_pipelines)
            (sym (length-latest_first (keep (λ c. c.owner_id == caller.sub) w.pipelines)));
      sync_runs = rw (e, list_all, scoped_page_lem) (ap length all_own);
      failed_runs =
          rw (e, list_all, scoped_page_lem)
            (ap length (own_runs (owned_ids caller w) (some failed) is_failed is_failed_lem));
      latest_runs = rw (e, list_all, scoped_page_lem) (ap latest_five all_own);
      webhook_events = rw (e, list_events) refl;
      latest_webhook_events = rw (e, list_events) refl;
    }
      where
        all_own :
            keep (pipeline_filter (owned_ids caller w)) w.sync_runs
            ≡ keep (is_of (owned_ids caller w)) w.sync_runs
        all_own = keep-ext_of_All _ _ w.sync_runs (pipeline_filter_lem (owned_ids caller w))

  -- The dashboard shows every caller what the lists of connectors, pipelines, runs and events show: their
  -- numbers, the number of failed runs, and the five latest runs and events, where no run has the id that
  -- stands for none.
  pub get_summary-AgreesWithLists :
      (caller : Actor) (w : World js.Num)
      → All (λ r. r.id == "__none__" ≡ false) w.sync_runs
      → AgreesWithLists caller w (get_summary caller w)
  unfolding get_summary
  get_summary-AgreesWithLists caller w named = elim (Bool-cases (is_privileged caller.role)) [
    | inl e ↦ subst (λ s. AgreesWithLists caller w s) (rw e refl) (agrees_for_privileged caller w e)
    | inr e ↦
        subst (λ s. AgreesWithLists caller w s) (rw e refl) (agrees_for_others caller w named e)
  ]

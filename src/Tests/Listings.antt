-- ===== src/Tests/Listings.antt =====
-- What callers are shown of concrete tables.
use sync_bridge_platform.Base.{ℕ, String, true, none, [], ◌∷◌, ◌≡◌, refl, ◌↔◌, ok, arith, length}
use sync_bridge_platform.Database.{operator, success, failed, SyncRun, SyncRunStatus, World, find}
use sync_bridge_platform.SyncRuns.Tables.{Actor}
use sync_bridge_platform.SyncRuns.Execute.{is_privileged}
use sync_bridge_platform.Listing.{read_pages}
use sync_bridge_platform.SyncRuns.Listing.{list_all}
use sync_bridge_platform.SyncRuns.Listing.Laws.{pages_of, readable_runs, list_all-pages}
use sync_bridge_platform.Dashboard.{get_summary}
use sync_bridge_platform.Dashboard.Laws.{AgreesWithLists, get_summary-AgreesWithLists}
use sync_bridge_platform.Jobs.{get_job}
use sync_bridge_platform.Jobs.Laws.{may_see_job, get_job-exact}
use sync_bridge_platform.Tests.Data.{runtime, pipeline, queued_run, queued_job, world_of}

abbrev owner : Actor
owner = record { sub = "owner"; role = operator }

abbrev run_of : String → String → SyncRunStatus → SyncRun
run_of id pipeline_id status = record queued_run {
  id = id;
  pipeline_id = pipeline_id;
  status = status;
}

-- Three runs of the owner's pipeline, and one of a pipeline of someone else.
abbrev several_runs : World ℕ
several_runs = record (world_of pipeline) {
  pipelines = pipeline ∷ record pipeline { id = "p2"; owner_id = "other" } ∷ [];
  sync_runs =
      run_of "r1" "p1" success
      ∷ run_of "r2" "p2" failed
      ∷ run_of "r3" "p1" failed
      ∷ run_of "r4" "p1" success
      ∷ [];
}

list_all-pages_example :
    (read_pages (λ page. list_all (pages_of none 2 page) owner several_runs) 2
      ≡ readable_runs none owner several_runs)
    × ((page : ℕ)
        → (list_all (pages_of none 2 page) owner several_runs).total
          ≡ length (readable_runs none owner several_runs))
unfolding find is_privileged
list_all-pages_example = list_all-pages none 2 2 owner several_runs (refl, (refl, tt)) (omega arith)

get_summary-AgreesWithLists_example :
    AgreesWithLists runtime owner several_runs (get_summary owner several_runs)
get_summary-AgreesWithLists_example =
    get_summary-AgreesWithLists runtime owner several_runs (refl, (refl, (refl, (refl, tt))))

get_job-exact_example :
    ((get_job "j1" owner several_runs ≡ (ok queued_job, several_runs))
      ↔ (may_see_job owner queued_job several_runs ≡ true))
    × ((get_job "j1" owner several_runs).1 ≡ several_runs)
unfolding find
get_job-exact_example = get_job-exact "j1" owner several_runs queued_job refl

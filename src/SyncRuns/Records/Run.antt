-- ===== src/SyncRuns/Records/Run.antt =====
-- What a run over records reports, and what a second run over the same records does.
use sync_bridge_platform.Base.{
  ℕ, ◌+◌, ◌-◌, ◌≤◌, String, Bool, true, false, Option, none, some, List, ◌++◌, ◌≡◌, All, length,
}
use sync_bridge_platform.Js.{Js, Json}
use sync_bridge_platform.Database.{SyncPipeline, SyncedRecord, MockRecord, World, update}
use sync_bridge_platform.Effects.{Env}
use sync_bridge_platform.SyncRuns.Cursor.{Cursor, cursor_candidate_to_json}
use sync_bridge_platform.SyncRuns.Cursor.Laws.{latest_cursor}
use sync_bridge_platform.SyncRuns.Tables.{Actor}
use sync_bridge_platform.SyncRuns.Records.{RunProcessingSummary, Tally, eligible}
use sync_bridge_platform.SyncRuns.Records.Laws.{IsOfRun}

module _ (js : Js) (env : Env) (sync_run_id : String) (pipeline : SyncPipeline js.Num)
    (actor : Option Actor) where
  -- The cursor of the pipeline in the tables `v`, moved on from the tables `w` to the value `value`.
  abbrev moved_pipelines : Json js.Num → World js.Num → List (SyncPipeline js.Num)
  moved_pipelines value w =
      update (λ p. p.id) pipeline.id (λ p. record p { cursor_json = value }) w.pipelines

  -- What happens to the cursor behind the loop, which ended with the counters `t`: it stays, or the
  -- latest cursor of a run without failures is stored, in incremental mode only.
  pub data CursorMove (t : Tally js.Num) (w w' : World js.Num) (advanced : Bool)
      (value : Option (Json js.Num)) : Type 0 where
    stayed :
        advanced ≡ false
        → value ≡ none
        → w'.pipelines ≡ w.pipelines
        → (pipeline.incremental_mode ≡ true
            → t.failed_count ≡ 0
            → cursor_candidate_to_json js t.max_cursor ≡ none)
        → CursorMove t w w' advanced value
    moved :
        (v : Json js.Num)
        → advanced ≡ true
        → value ≡ some v
        → pipeline.incremental_mode ≡ true
        → t.failed_count ≡ 0
        → cursor_candidate_to_json js t.max_cursor ≡ some v
        → w'.pipelines ≡ moved_pipelines v w
        → CursorMove t w w' advanced value

  -- The report of a run that went through: where the records went, what was stored, and the cursor.
  pub record IsReport (records : List (MockRecord js.Num)) (ignore_cursor : Bool)
      (w w' : World js.Num) (s : RunProcessingSummary js.Num) : Type 0 where
    pub received : s.records_received ≡ length records
    -- The records that count twice, as processed and as failed.
    pub doubled : ℕ
    pub accounted :
        s.records_processed + s.records_failed + s.skipped_by_cursor ≡ length records + doubled
    pub doubled_processed : doubled ≤ s.records_processed
    pub doubled_failed : doubled ≤ s.records_failed
    pub audited : ((n : ℕ) → env.audit_error n ≡ none) → doubled ≡ 0
    pub reported : s.records_failed ≤ s.error_count
    pub added : List (SyncedRecord js.Num)
    pub stored : w'.synced_records ≡ w.synced_records ++ added
    pub added_count : length added ≡ s.records_processed
    pub owned : All (IsOfRun js env sync_run_id pipeline actor) added
    pub tally : Tally js.Num
    pub failures : s.records_failed ≡ tally.failed_count
    pub latest :
        s.records_failed ≡ 0
        → tally.max_cursor ≡ latest_cursor js none (eligible js pipeline ignore_cursor records)
    pub before : World js.Num
    pub before_pipelines : before.pipelines ≡ w.pipelines
    pub cursor : CursorMove tally before w' s.cursor_advanced s.cursor_value

  abbrev summary_of :
      List (MockRecord js.Num)
      → Bool
      → Tally js.Num
      → Bool
      → Option (Json js.Num)
      → RunProcessingSummary js.Num
  summary_of records ignore_cursor t advanced value = record {
    records_received = length records;
    records_processed = t.created_count;
    records_failed = t.failed_count;
    error_count = t.total_error_count;
    skipped_by_cursor = length records - length (eligible js pipeline ignore_cursor records);
    cursor_advanced = advanced;
    cursor_value = value;
  }

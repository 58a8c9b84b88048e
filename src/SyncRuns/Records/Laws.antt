-- ===== src/SyncRuns/Records/Laws.antt =====
-- What the loop over the records of a run does to its counters and to the tables.
use mathlib.Core.List.{append-nil, append_assoc}
use sync_bridge_platform.Base.{
  ℕ, ◌+◌, ◌≤◌, String, Option, some, List, [], ◌∷◌, ◌++◌, ◌≡◌, refl, sym, ◌∙◌, ap, inl, inr, arith,
  Result, ok, err, Result-cases, Bool-cases, Option-cases, none, suc, All, All-append, length,
  length-append,
}
use sync_bridge_platform.Js.{Js, Fields}
use sync_bridge_platform.Transformations.Errors.{TransformationErrorDetail}
use sync_bridge_platform.Transformations.Mapping.{NormalizedMappingField}
use sync_bridge_platform.Transformations.Record.{transform_record_with_compiled_mapping}
use sync_bridge_platform.Database.{SyncPipeline, SyncedRecord, MockRecord, World}
use sync_bridge_platform.Effects.{Error, Env, continue}
use sync_bridge_platform.SyncRuns.Cursor.{Cursor, pick_latest_cursor, extract_cursor_candidate}
use sync_bridge_platform.SyncRuns.Cursor.Laws.{latest_cursor}
use sync_bridge_platform.SyncRuns.Tables.{Actor, create_synced_record}
use sync_bridge_platform.SyncRuns.Records.{
  synced_row, Tally, transform, settle_record, process_record, process_records,
}

module _ (js : Js) (env : Env) (sync_run_id : String) (pipeline : SyncPipeline js.Num)
    (actor : Option Actor) where
  -- A row that the run wrote.
  pub record IsOfRun (row : SyncedRecord js.Num) : Type 0 where
    pub run : row.sync_run_id ≡ some sync_run_id
    pub of_pipeline : row.pipeline_id ≡ pipeline.id
    pub source : row.source_type ≡ "MANUAL"

  -- The records `rs`, gone through from the counters `t` and the tables `w` to `t'` and `w'`.
  pub record Processed (rs : List (MockRecord js.Num)) (t t' : Tally js.Num) (w w' : World js.Num)
      : Type 0 where
    pub doubled : ℕ
    pub counted :
        t'.created_count + t'.failed_count ≡ t.created_count + t.failed_count + length rs + doubled
    pub failures : t.failed_count + doubled ≤ t'.failed_count
    pub doubled_stored : t.created_count + doubled ≤ t'.created_count
    pub audited : ((n : ℕ) → env.audit_error n ≡ none) → doubled ≡ 0
    pub reported : t'.failed_count + t.total_error_count ≤ t'.total_error_count + t.failed_count
    pub latest : t'.failed_count ≡ t.failed_count → t'.max_cursor ≡ latest_cursor js t.max_cursor rs
    pub added : List (SyncedRecord js.Num)
    pub stored : w'.synced_records ≡ w.synced_records ++ added
    pub added_count : t'.created_count ≡ t.created_count + length added
    pub owned : All IsOfRun added

  latest_cursor-append :
      (rs ss : List (MockRecord js.Num)) (c : Option (Cursor js.Num))
      → latest_cursor js c (rs ++ ss) ≡ latest_cursor js (latest_cursor js c rs) ss
  unfolding latest_cursor
  latest_cursor-append [] ss c = refl
  latest_cursor-append (r ∷ rs) ss c =
      latest_cursor-append rs ss (pick_latest_cursor js c (extract_cursor_candidate js r.raw))

  Processed-trans :
      {rs ss : List (MockRecord js.Num)} {t t' t'' : Tally js.Num} {w w' w'' : World js.Num}
      → Processed rs t t' w w'
      → Processed ss t' t'' w' w''
      → Processed (rs ++ ss) t t'' w w''
  Processed-trans {rs} {ss} {t} {t'} {t''} {w} {w'} {w''} a b = record {
    doubled = a.doubled + b.doubled;
    counted = omega (arith, length-append rs ss);
    failures = omega (arith, a.failures, b.failures);
    doubled_stored = omega (arith, a.doubled_stored, b.doubled_stored);
    audited = λ never. omega (arith, a.audited never, b.audited never);
    reported = omega arith;
    latest = λ e.
        b.latest (omega (arith, a.failures, b.failures))
        ∙ ap (λ c. latest_cursor js c ss) (a.latest (omega (arith, a.failures, b.failures)))
        ∙ sym (latest_cursor-append rs ss t.max_cursor);
    added = a.added ++ b.added;
    stored =
        b.stored
        ∙ ap (λ rows. rows ++ b.added) a.stored
        ∙ append_assoc w.synced_records a.added b.added;
    added_count = omega (arith, length-append a.added b.added);
    owned = All-append IsOfRun a.added b.added a.owned b.owned;
  }

  -- A record that was stored, and counted as failed too if `failed` is 1.
  stored-Processed :
      (r : MockRecord js.Num) (t t' : Tally js.Num) (normalized : Fields js.Num) (id : String)
      (w w' : World js.Num)
      → (failed : ℕ) → failed ≤ 1
      → (((n : ℕ) → env.audit_error n ≡ none) → failed ≡ 0)
      → t'.created_count ≡ t.created_count + 1
      → t'.failed_count ≡ t.failed_count + failed
      → t'.total_error_count ≡ t.total_error_count + failed
      → t'.max_cursor ≡ pick_latest_cursor js t.max_cursor (extract_cursor_candidate js r.raw)
      → w'.synced_records
        ≡ w.synced_records ++ synced_row js env sync_run_id pipeline actor r normalized id ∷ []
      → Processed (r ∷ []) t t' w w'
  unfolding latest_cursor
  stored-Processed r t t' normalized id w w' failed bound never c f e m rows = record {
    doubled = failed;
    counted = omega arith;
    failures = omega arith;
    doubled_stored = omega arith;
    audited = never;
    reported = omega arith;
    latest = λ same. m;
    added = synced_row js env sync_run_id pipeline actor r normalized id ∷ [];
    stored = rows;
    added_count = omega arith;
    owned = (record { run = refl; of_pipeline = refl; source = refl }, tt);
  }

  settle_record_sound :
      (r : MockRecord js.Num) (t t' : Tally js.Num) (normalized : Fields js.Num)
      → (errors : List TransformationErrorDetail) (w w' : World js.Num)
      → settle_record js env sync_run_id pipeline actor r
          (record t { total_error_count = t.total_error_count + length errors })
          normalized
          errors
          w
        ≡ (ok t', w')
      → Processed (r ∷ []) t t' w w'
  unfolding settle_record create_synced_record latest_cursor
  settle_record_sound r t t' normalized (e ∷ errors) w w' h = record {
    doubled = 0;
    counted = ground arith;
    failures = ground arith;
    doubled_stored = ground arith;
    audited = λ never. refl;
    reported = ground arith;
    latest = λ same. absurd (ground arith);
    added = [];
    stored = rw append-nil (ground arith);
    added_count = ground arith;
    owned = tt;
  }
  settle_record_sound r t t' normalized [] w w' h = elim (Bool-cases (env.insert_fails w.ticks)) [
    | inl fails ↦ record {
      doubled = 0;
      counted = ground arith;
      failures = ground arith;
      doubled_stored = ground arith;
      audited = λ never. refl;
      reported = ground arith;
      latest = λ same. absurd (ground arith);
      added = [];
      stored = rw append-nil (ground arith);
      added_count = ground arith;
      owned = tt;
    }
    | inr works ↦
        let row = env.uuid w.ticks in
        elim (Option-cases (env.audit_error (suc w.ticks))) [
          | inr (m, lost) ↦
              stored-Processed r t t' normalized row w w' 1 (omega arith)
                (λ never. absurd (ground (arith, never (suc w.ticks)))) (ground arith)
                (ground arith) (ground arith) (ground arith) (ground arith)
          | inl applied ↦ elim (Option-cases (env.audit_error (suc (suc w.ticks)))) [
            | inr (m, lost) ↦
                stored-Processed r t t' normalized row w w' 1 (omega arith)
                  (λ never. absurd (ground (arith, never (suc (suc w.ticks))))) (ground arith)
                  (ground arith) (ground arith) (ground arith) (ground arith)
            | inl both ↦
                stored-Processed r t t' normalized row w w' 0 (omega arith) (λ never. refl)
                  (ground arith) (ground arith) (ground arith) (ground arith) (ground arith)
          ]
        ]
  ]

  process_record_sound :
      (fields : List (NormalizedMappingField js.Num)) (r : MockRecord js.Num) (t t' : Tally js.Num)
      → (w w' : World js.Num)
      → process_record js env sync_run_id pipeline actor fields t r w ≡ (ok t', w')
      → Processed (r ∷ []) t t' w w'
  unfolding process_record transform
  process_record_sound fields r t t' w w' h =
      elim (Result-cases
        (transform_record_with_compiled_mapping js env.computed r.raw fields w.ticks)) [
          | inl (p, e) ↦ rebase (
              settle_record_sound r t t' p.normalized p.errors (record w { ticks = p.calls }) w'
                (rw e at h))
          | inr (m, e) ↦ cc
        ]
    where
      rebase :
          {n : ℕ}
          → Processed (r ∷ []) t t' (record w { ticks = n }) w'
          → Processed (r ∷ []) t t' w w'
      rebase a = record {
        doubled = a.doubled;
        counted = a.counted;
        failures = a.failures;
        doubled_stored = a.doubled_stored;
        audited = a.audited;
        reported = a.reported;
        latest = a.latest;
        added = a.added;
        stored = a.stored;
        added_count = a.added_count;
        owned = a.owned;
      }

  -- Records that a run went through: each was stored or counted as failed, a failure counts as an
  -- error at least, what was stored are new rows of this run, and as long as none failed the cursor is
  -- the latest among them.
  pub process_records_sound :
      (fields : List (NormalizedMappingField js.Num)) (rs : List (MockRecord js.Num))
      → (t t' : Tally js.Num) (w w' : World js.Num)
      → process_records js env sync_run_id pipeline actor fields t rs w ≡ (ok t', w')
      → Processed rs t t' w w'
  unfolding process_records latest_cursor
  process_records_sound fields [] t t' w w' h = record {
    doubled = 0;
    counted = ground arith;
    failures = ground arith;
    doubled_stored = ground arith;
    audited = λ never. refl;
    reported = ground arith;
    latest = λ same. ground arith;
    added = [];
    stored = rw append-nil (ground arith);
    added_count = ground arith;
    owned = tt;
  }
  process_records_sound fields (r ∷ rs) t t' w w' h =
      go (process_record js env sync_run_id pipeline actor fields t r w) refl
        (λ u v k. process_records_sound fields rs u t' v w' k) h
    where
      go :
          (m : Result Error (Tally js.Num) × World js.Num)
          → process_record js env sync_run_id pipeline actor fields t r w ≡ m
          → ((u : Tally js.Num) (v : World js.Num)
              → process_records js env sync_run_id pipeline actor fields u rs v ≡ (ok t', w')
              → Processed rs u t' v w')
          → continue m.0 (λ u. process_records js env sync_run_id pipeline actor fields u rs) m.1
            ≡ (ok t', w')
          → Processed (r ∷ rs) t t' w w'
      go (ok u, v) e ih k = Processed-trans (process_record_sound fields r t u w v e) (ih u v k)
      go (err x, v) e ih k = cc

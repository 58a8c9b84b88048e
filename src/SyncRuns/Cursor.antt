-- ===== src/SyncRuns/Cursor.antt =====
-- apps/api/src/sync-runs/sync-runs.service.ts: the cursor of a pipeline in incremental mode, a
-- sequence number or a date or both, and how it filters records and moves on.
pub mod Laws
pub mod Rerun
use sync_bridge_platform.Base.{
  String, Bool, true, false, not, Option, none, some, List, [], ◌∷◌, keep, if◌then◌else◌,
}
use sync_bridge_platform.Js.{
  Js, Json, Fields, Unknown, null, num, str, obj, end, field, given, read, ensure_record_object,
}
use sync_bridge_platform.Database.{SyncPipeline, MockRecord}

-- `CursorState` and `CursorCandidate` have the same fields. A date is kept as the ISO text.
pub record Cursor (N : Type 0) : Type 0 where
  pub sequence : Option N
  pub updated_at : Option String

module _ (js : Js) where
  -- `if (sequence === undefined && updatedAt === undefined) return null`
  abbrev pub or_null : Cursor js.Num → Option (Cursor js.Num)
  or_null c = elim c.sequence [
    | some n ↦ some c
    | none ↦ elim c.updated_at [ some t ↦ some c | none ↦ none ]
  ]

  abbrev pub finite : js.Num → Option js.Num
  finite n = if js.is_finite n then some n else none

  -- `new Date(value).toISOString()`, if the date is valid
  abbrev pub iso : Option js.Time → Option String
  iso none = none
  iso (some t) = some (js.to_iso t)

  abbrev pub state_sequence : Unknown js.Num → Option js.Num
  state_sequence (given (num n)) = finite n
  state_sequence _ = none

  abbrev pub state_updated_at : Unknown js.Num → Option String
  state_updated_at (given (str s)) = iso (js.parse_date s)
  state_updated_at _ = none

  unfoldable pub normalize_cursor_state : Json js.Num → Option (Cursor js.Num)
  normalize_cursor_state (obj raw) = or_null (record {
    sequence = state_sequence (read raw "sequence");
    updated_at = state_updated_at (read raw "updatedAt");
  })
  normalize_cursor_state _ = none

  abbrev pub candidate_sequence : Unknown js.Num → Option js.Num
  candidate_sequence (given (num n)) = finite n
  candidate_sequence (given (str s)) = finite (js.to_number s)
  candidate_sequence _ = none

  abbrev pub candidate_updated_at : Unknown js.Num → Option String
  candidate_updated_at (given (str s)) = iso (js.parse_date s)
  candidate_updated_at (given (num n)) = iso (js.date_of_number n)
  candidate_updated_at _ = none

  unfoldable pub extract_cursor_candidate : Fields js.Num → Option (Cursor js.Num)
  extract_cursor_candidate raw = or_null (record {
    sequence = candidate_sequence (read raw "sequence");
    updated_at = candidate_updated_at (read raw "updatedAt");
  })

  abbrev later : Option js.Time → Option js.Time → Bool
  later (some a) (some b) = js.time_lt b a
  later _ _ = false

  -- `new Date(a).getTime() > new Date(b).getTime()`
  unfoldable pub date_after : String → String → Bool
  date_after a b = later (js.parse_date a) (js.parse_date b)

  -- A text of `updatedAt` is an ISO text, never empty, so that the tests for it are those for its
  -- presence.
  abbrev newer_by_date : Option String → Option String → Bool
  newer_by_date (some a) (some b) = date_after a b
  newer_by_date _ _ = true

  abbrev newer_by_sequence : Option js.Num → Option js.Num → Bool → Bool
  newer_by_sequence (some a) (some b) otherwise = js.num_lt b a
  newer_by_sequence _ _ otherwise = otherwise

  unfoldable pub is_candidate_newer : Cursor js.Num → Cursor js.Num → Bool
  unfolding date_after
  is_candidate_newer candidate cursor =
      newer_by_sequence candidate.sequence cursor.sequence
        (newer_by_date candidate.updated_at cursor.updated_at)

  abbrev newer_than : Option (Cursor js.Num) → Cursor js.Num → Bool
  newer_than none cursor = true
  newer_than (some candidate) cursor = is_candidate_newer candidate cursor

  abbrev passes : Option (Cursor js.Num) → Fields js.Num → Bool
  passes none raw = true
  passes (some cursor) raw = newer_than (extract_cursor_candidate raw) cursor

  unfoldable pub should_process_record : MockRecord js.Num → Option (Cursor js.Num) → Bool
  unfolding extract_cursor_candidate is_candidate_newer
  should_process_record record' cursor = passes cursor record'.raw

  -- The tests of `pickLatestCursor` behind those for `null`, for two candidates.
  abbrev by_presence :
      Cursor js.Num
      → Cursor js.Num
      → Option js.Num
      → Option js.Num
      → Option String
      → Option String
      → Cursor js.Num
  by_presence left right none (some _) _ _ = right
  by_presence left right _ _ none (some _) = right
  by_presence left right _ _ _ _ = left

  abbrev by_date :
      Cursor js.Num
      → Cursor js.Num
      → Option js.Num
      → Option js.Num
      → Option String
      → Option String
      → Cursor js.Num
  by_date left right ls rs (some a) (some b) = if date_after b a then right else left
  by_date left right ls rs lu ru = by_presence left right ls rs lu ru

  abbrev by_sequence : Cursor js.Num → Cursor js.Num → Option js.Num → Option js.Num → Cursor js.Num
  by_sequence left right (some a) (some b) = if js.num_lt a b then right else left
  by_sequence left right ls rs = by_date left right ls rs left.updated_at right.updated_at

  unfoldable pub pick_latest_cursor :
      Option (Cursor js.Num) → Option (Cursor js.Num) → Option (Cursor js.Num)
  unfolding date_after
  pick_latest_cursor none right = right
  pick_latest_cursor (some left) none = some left
  pick_latest_cursor (some left) (some right) =
      some (by_sequence left right left.sequence right.sequence)

  abbrev with_updated_at : Option String → Fields js.Num
  with_updated_at none = end
  with_updated_at (some t) = field "updatedAt" (str t) end

  abbrev with_sequence : Option js.Num → Fields js.Num → Fields js.Num
  with_sequence none fs = fs
  with_sequence (some n) fs = field "sequence" (num n) fs

  abbrev or_null_json : Fields js.Num → Option (Json js.Num)
  or_null_json end = none
  or_null_json (field k v fs) = some (obj (field k v fs))

  unfoldable pub cursor_candidate_to_json : Option (Cursor js.Num) → Option (Json js.Num)
  cursor_candidate_to_json none = none
  cursor_candidate_to_json (some c) =
      or_null_json (with_sequence c.sequence (with_updated_at c.updated_at))

  -- The records that a run processes.
  unfoldable pub eligible_records :
      Option (Cursor js.Num) → Bool → List (MockRecord js.Num) → List (MockRecord js.Num)
  unfolding should_process_record
  eligible_records cursor should_apply_cursor records =
      if should_apply_cursor then keep (λ r. should_process_record r cursor) records else records

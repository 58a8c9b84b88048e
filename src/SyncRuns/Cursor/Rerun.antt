-- ===== src/SyncRuns/Cursor/Rerun.antt =====
-- Running a pipeline again on the records of a run: the cursor filters them all.
use mathlib.Core.Path.{subst}
use sync_bridge_platform.Base.{
  some-injective, String, true, Option, none, some, List, [], ◌∷◌, ◌≡◌, refl, sym, ◌∙◌, ap, inl,
  inr, All, Bool-cases, keep, keep-true, keep-All, All-keep,
}
use sync_bridge_platform.Js.{Js, Json, end, field, num, str, obj, own, read}
use sync_bridge_platform.Database.{MockRecord}
use sync_bridge_platform.SyncRuns.Cursor.{
  Cursor, iso, pick_latest_cursor, newer_by_date, newer_by_sequence, should_process_record,
  eligible_records, normalize_cursor_state, cursor_candidate_to_json,
}
use sync_bridge_platform.SyncRuns.Cursor.Laws.{
  NumberOrder, sequence_of, HasSequence, latest_cursor, Covers, candidate_of, extract_sequenced,
  finite_sequence, latest_cursor_sound, below_trans,
}

module _ (js : Js) where
  -- A cursor with a sequence number lets exactly the records with a higher one through.
  should_process_sequenced :
      (cursor : Cursor js.Num) (k : js.Num) (r : MockRecord js.Num) (n : js.Num)
      → cursor.sequence ≡ some k
      → sequence_of js r ≡ some n
      → should_process_record js r (some cursor) ≡ js.num_lt k n
  unfolding should_process_record
  should_process_sequenced cursor k r n h hn = rw (extract_sequenced js r n hn) (
      ap
        (λ s.
          newer_by_sequence js (some n) s
            (newer_by_date js (candidate_of js r n).updated_at cursor.updated_at))
        h)

  nothing_passes :
      (cursor : Cursor js.Num) (k : js.Num) (rs : List (MockRecord js.Num))
      → cursor.sequence ≡ some k
      → All (HasSequence js) rs
      → All (Covers js k) rs
      → keep (λ r. should_process_record js r (some cursor)) rs ≡ []
  nothing_passes cursor k [] h seqs covers = refl
  nothing_passes cursor k (r ∷ rs) h ((n, hn), seqs) (c, covers) =
      rw (should_process_sequenced cursor k r n h hn, c n hn)
        (nothing_passes cursor k rs h seqs covers)

  -- The stored cursor reads back with its sequence number.
  stored_literal :
      (k : js.Num) (u : Option String)
      → js.is_finite k ≡ true
      → (stored : Json js.Num) × (cursor_candidate_to_json js
            (some (record { sequence = some k; updated_at = u }))
          ≡ some stored)
        × ((read_back : Cursor js.Num) × (normalize_cursor_state js stored ≡ some read_back)
            × (read_back.sequence ≡ some k))
  unfolding cursor_candidate_to_json normalize_cursor_state read own
  stored_literal k none fin = (
    obj (field "sequence" (num k) end),
    refl,
    (record { sequence = some k; updated_at = none }, rw fin, refl),
  )
  stored_literal k (some t) fin = (
    obj (field "sequence" (num k) (field "updatedAt" (str t) end)),
    refl,
    (record { sequence = some k; updated_at = iso js (js.parse_date t) }, rw fin, refl),
  )

  stored_sequence :
      (c : Cursor js.Num) (k : js.Num)
      → c.sequence ≡ some k
      → js.is_finite k ≡ true
      → (stored : Json js.Num) × (cursor_candidate_to_json js (some c) ≡ some stored)
        × ((read_back : Cursor js.Num) × (normalize_cursor_state js stored ≡ some read_back)
            × (read_back.sequence ≡ some k))
  stored_sequence c k h fin =
      subst
        (λ (d : Cursor js.Num).
          (stored : Json js.Num) × (cursor_candidate_to_json js (some d) ≡ some stored)
          × ((read_back : Cursor js.Num) × (normalize_cursor_state js stored ≡ some read_back)
              × (read_back.sequence ≡ some k)))
        (λ i. record { sequence = sym h i; updated_at = c.updated_at })
        (stored_literal k c.updated_at fin)

  module _ (order : NumberOrder js) where
    -- Records that a cursor holds back stay held back by a higher one.
    rest_covered :
        (cursor : Cursor js.Num) (m k : js.Num) (rs : List (MockRecord js.Num))
        → cursor.sequence ≡ some m
        → js.num_lt m k ≡ true
        → All (HasSequence js) rs
        → All (Covers js k) (keep (λ r. should_process_record js r (some cursor)) rs)
        → All (Covers js k) rs
    rest_covered cursor m k [] h lt seqs covers = tt
    rest_covered cursor m k (r ∷ rs) h lt ((n, hn), seqs) covers =
        elim (Bool-cases (js.num_lt m n)) [
          | inl passed ↦
              let (c, rest) = rw (should_process_sequenced cursor m r n h hn, passed) at covers in
              (c, rest_covered cursor m k rs h lt seqs rest)
          | inr held ↦ (
            λ n2 h2. below_trans js order m k n2 lt (rw (← same n2 h2) held),
            rest_covered cursor m k rs h lt seqs
                (rw (should_process_sequenced cursor m r n h hn, held) at covers),
          )
        ]
      where
        same : (n2 : js.Num) → sequence_of js r ≡ some n2 → n ≡ n2
        same n2 h2 = cc

    -- A cursor that the program reads for a pipeline of numbered records: none, or one with a number.
    abbrev pub IsNumbered : Option (Cursor js.Num) → Type 0
    IsNumbered none = Unit
    IsNumbered (some c) = (m : js.Num) × (c.sequence ≡ some m)

    abbrev pub Exceeds : js.Num → Option (Cursor js.Num) → Type 0
    Exceeds k none = Unit
    Exceeds k (some c) = (m : js.Num) → c.sequence ≡ some m → js.num_lt m k ≡ true

    -- What the program stores after a run over the eligible records.
    pub record IsNextCursor (cursor : Option (Cursor js.Num)) (records : List (MockRecord js.Num))
        (latest : Cursor js.Num) : Type 0 where
      pub stored : Json js.Num
      pub is_stored : cursor_candidate_to_json js (some latest) ≡ some stored
      pub number : js.Num
      pub is_number : latest.sequence ≡ some number
      pub grows : Exceeds number cursor
      pub finished : eligible_records js (normalize_cursor_state js stored) true records ≡ []

    conclude :
        (cursor : Option (Cursor js.Num)) (records : List (MockRecord js.Num))
        (latest : Cursor js.Num) (k : js.Num)
        → All (HasSequence js) records
        → latest.sequence ≡ some k
        → js.is_finite k ≡ true
        → All (Covers js k) records
        → Exceeds k cursor
        → IsNextCursor cursor records latest
    unfolding eligible_records
    conclude cursor records latest k seqs h fin covers grows =
        let (stored, e, (read_back, d, hk)) = stored_sequence latest k h fin in
        record {
          stored = stored;
          is_stored = e;
          number = k;
          is_number = h;
          grows = grows;
          finished = rw d (nothing_passes read_back k records hk seqs covers);
        }

    latest_of :
        (rs : List (MockRecord js.Num)) (latest : Cursor js.Num)
        → All (HasSequence js) rs
        → latest_cursor js none rs ≡ some latest
        → (k : js.Num) × (latest.sequence ≡ some k)
          × (js.is_finite k ≡ true)
          × All (Covers js k) rs
          × ((x : js.Num)
              → All (λ r. (n : js.Num) → sequence_of js r ≡ some n → js.num_lt x n ≡ true) rs
              → js.num_lt x k ≡ true)
    unfolding latest_cursor pick_latest_cursor
    latest_of [] latest seqs h = cc
    latest_of (r ∷ rs) latest ((n, hn), seqs) h =
        let (c, e, k) =
          latest_cursor_sound js order (candidate_of js r n) n rs refl
            (finite_sequence js (read r.raw "sequence") n hn) seqs in
        let same : some c ≡ some latest = sym e ∙ (rw (extract_sequenced js r n hn) at h) in
        (
          k.number,
          subst (λ (d : Cursor js.Num). d.sequence ≡ some k.number) (some-injective same)
              k.is_number,
          k.is_finite,
          (λ n2 h2. k.above n2 (rw (equal n2 h2) (order.irrefl n2)), k.covers),
          λ x above. k.after x (above.0 n hn),
        )
      where
        equal : (n2 : js.Num) → sequence_of js r ≡ some n2 → n ≡ n2
        equal n2 h2 = cc

    above-All :
        (cursor : Cursor js.Num) (m : js.Num) (rs : List (MockRecord js.Num))
        → cursor.sequence ≡ some m
        → All (λ r. should_process_record js r (some cursor) ≡ true) rs
        → All (λ r. (n : js.Num) → sequence_of js r ≡ some n → js.num_lt m n ≡ true) rs
    above-All cursor m [] h passed = tt
    above-All cursor m (r ∷ rs) h (p, passed) = (
      λ n hn. sym (should_process_sequenced cursor m r n h hn) ∙ p,
      above-All cursor m rs h passed,
    )

    -- Rerunning a batch of records that all have sequence numbers, after an incremental run that began
    -- with no cursor or one with a number, processes none of them again, and the cursor's number has
    -- grown: if the latest cursor among the eligible records is stored and read back, then no record of
    -- the batch is eligible any more. The comparison of numbers is taken to be irreflexive and
    -- transitive.
    pub rerun_processes_nothing :
        (cursor : Option (Cursor js.Num)) (records : List (MockRecord js.Num))
        (latest : Cursor js.Num)
        → IsNumbered cursor
        → All (HasSequence js) records
        → latest_cursor js none (eligible_records js cursor true records) ≡ some latest
        → IsNextCursor cursor records latest
    unfolding eligible_records
    rerun_processes_nothing none records latest numbered seqs h =
        let (k, hk, fin, covers, _) = latest_of records latest seqs (rw (keep-true records) at h) in
        conclude none records latest k seqs hk fin covers tt
    rerun_processes_nothing (some c) records latest (m, hm) seqs h =
        let passes_cursor = λ (r : MockRecord js.Num). should_process_record js r (some c) in
        let (k, hk, fin, covers, above) =
          latest_of (keep passes_cursor records) latest
            (All-keep (HasSequence js) passes_cursor records seqs) h in
        let grows =
          above m
            (above-All c m (keep passes_cursor records) hm (keep-All passes_cursor records)) in
        conclude (some c) records latest k seqs hk fin
          (rest_covered c m k records hm grows seqs covers) (λ m2 h2. rw (← same m2 h2) grows)
      where
        same : (m2 : js.Num) → c.sequence ≡ some m2 → m ≡ m2
        same m2 h2 = cc

-- ===== src/SyncRuns/Cursor/Laws.antt =====
-- The latest cursor among the records of a run.
use sync_bridge_platform.Base.{
  true, false, Option, some, List, [], ◌∷◌, ◌≡◌, refl, ap, inl, inr, arith, All, Bool-cases,
  if◌then◌else◌,
}
use sync_bridge_platform.Js.{Js, Unknown, given, undefined, inherited, null, num, str, read}
use sync_bridge_platform.Database.{MockRecord}
use sync_bridge_platform.SyncRuns.Cursor.{
  Cursor, by_sequence, candidate_sequence, candidate_updated_at, extract_cursor_candidate,
  pick_latest_cursor,
}

-- What JavaScript says of `<` on numbers.
pub record NumberOrder (js : Js) : Type 0 where
  pub irrefl : (a : js.Num) → js.num_lt a a ≡ false
  pub trans : (a b c : js.Num) → js.num_lt a b ≡ true → js.num_lt b c ≡ true → js.num_lt a c ≡ true

module _ (js : Js) where
  -- The sequence number that the program reads off a record.
  abbrev pub sequence_of : MockRecord js.Num → Option js.Num
  sequence_of r = candidate_sequence js (read r.raw "sequence")

  -- The loop over the processed records, as far as it concerns the cursor.
  unfoldable pub latest_cursor :
      Option (Cursor js.Num) → List (MockRecord js.Num) → Option (Cursor js.Num)
  latest_cursor latest [] = latest
  latest_cursor latest (r ∷ rs) =
      latest_cursor (pick_latest_cursor js latest (extract_cursor_candidate js r.raw)) rs

  abbrev pub HasSequence : MockRecord js.Num → Type 0
  HasSequence r = (n : js.Num) × (sequence_of r ≡ some n)

  pub finite_sequence :
      (u : Unknown js.Num) (n : js.Num) → candidate_sequence js u ≡ some n → js.is_finite n ≡ true
  finite_sequence (given (num m)) n h = ground arith
  finite_sequence (given (str s)) n h = ground arith
  finite_sequence (given null) n h = cc
  finite_sequence (given _) n h = cc
  finite_sequence undefined n h = cc
  finite_sequence (inherited name) n h = cc

  -- The candidate of a record with a sequence number.
  abbrev pub candidate_of : MockRecord js.Num → js.Num → Cursor js.Num
  candidate_of r n = record {
    sequence = some n;
    updated_at = candidate_updated_at js (read r.raw "updatedAt");
  }

  pub extract_sequenced :
      (r : MockRecord js.Num) (n : js.Num)
      → sequence_of r ≡ some n
      → extract_cursor_candidate js r.raw ≡ some (candidate_of r n)
  unfolding extract_cursor_candidate
  extract_sequenced r n h = rw h

  pick_sequenced :
      (left : Cursor js.Num) (m : js.Num) (r : MockRecord js.Num) (n : js.Num)
      → left.sequence ≡ some m
      → sequence_of r ≡ some n
      → pick_latest_cursor js (some left) (extract_cursor_candidate js r.raw)
        ≡ some (if js.num_lt m n then candidate_of r n else left)
  unfolding pick_latest_cursor
  pick_sequenced left m r n h hn =
      rw (extract_sequenced r n hn)
        (ap (λ ls. some (by_sequence js left (candidate_of r n) ls (some n))) h)

  -- The sequence number `k` is finite, and is not below the one of a record.
  abbrev pub Covers : js.Num → MockRecord js.Num → Type 0
  Covers k r = (n : js.Num) → sequence_of r ≡ some n → js.num_lt k n ≡ false

  module _ (order : NumberOrder js) where
    -- What holds of the cursor that the loop ends with, if it began with the number `m`.
    pub record IsLatest (m : js.Num) (rs : List (MockRecord js.Num)) (c : Cursor js.Num)
        : Type 0 where
      pub number : js.Num
      pub is_number : c.sequence ≡ some number
      pub is_finite : js.is_finite number ≡ true
      pub covers : All (Covers number) rs
      pub above : (x : js.Num) → js.num_lt m x ≡ false → js.num_lt number x ≡ false
      pub after : (x : js.Num) → js.num_lt x m ≡ true → js.num_lt x number ≡ true

    pub below_trans :
        (a b x : js.Num) → js.num_lt a b ≡ true → js.num_lt a x ≡ false → js.num_lt b x ≡ false
    below_trans a b x lt nlt = elim (Bool-cases (js.num_lt b x)) [
      | inl bx ↦ cc (order.trans a b x lt bx)
      | inr nbx ↦ nbx
    ]

    pub latest_cursor_sound :
        (left : Cursor js.Num) (m : js.Num) (rs : List (MockRecord js.Num))
        → left.sequence ≡ some m
        → js.is_finite m ≡ true
        → All HasSequence rs
        → (c : Cursor js.Num) × (latest_cursor (some left) rs ≡ some c) × IsLatest m rs c
    unfolding latest_cursor
    latest_cursor_sound left m [] h fin seqs = (
      left,
      refl,
      record {
        number = m;
        is_number = h;
        is_finite = fin;
        covers = tt;
        above = λ x nlt. nlt;
        after = λ x lt. lt;
      },
    )
    latest_cursor_sound left m (r ∷ rs) h fin ((n, hn), seqs) = elim (Bool-cases (js.num_lt m n)) [
      | inl lt ↦
          let (c, e, k) =
            latest_cursor_sound (candidate_of r n) n rs refl
              (finite_sequence (read r.raw "sequence") n hn) seqs in
          (
            c,
            rw (pick_sequenced left m r n h hn, lt) e,
            record {
              number = k.number;
              is_number = k.is_number;
              is_finite = k.is_finite;
              covers = (λ n2 h2. k.above n2 (rw (same n2 h2) (order.irrefl n2)), k.covers);
              above = λ x nlt. k.above x (below_trans m n x lt nlt);
              after = λ x lx. k.after x (order.trans x m n lx lt);
            },
          )
      | inr nlt ↦
          let (c, e, k) = latest_cursor_sound left m rs h fin seqs in
          (
            c,
            rw (pick_sequenced left m r n h hn, nlt) e,
            record {
              number = k.number;
              is_number = k.is_number;
              is_finite = k.is_finite;
              covers = (λ n2 h2. k.above n2 (rw (← same n2 h2) nlt), k.covers);
              above = k.above;
              after = k.after;
            },
          )
    ]
      where
        same : (n2 : js.Num) → sequence_of r ≡ some n2 → n ≡ n2
        same n2 h2 = cc

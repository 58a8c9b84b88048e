-- ===== src/Logging/Laws.antt =====
-- What the metadata of a log entry holds after apps/api/src/common/logging/structured-logger.service.ts
-- has been over it.
use sync_bridge_platform.Base.{
  ℕ, zero, suc, String, Bool, true, false, ◌≡◌, refl, ltb, arith, inl, inr, Bool-cases,
}
use sync_bridge_platform.Js.{Js}
use sync_bridge_platform.Logging.{
  LogValue, LogItems, LogFields, undefined, null, bool, num, str, error, arr, obj, nil, cons, end,
  field, is_sensitive, or_redacted, unless_deep, sanitize_fields, sanitize_value, sanitize_items,
  sanitize_item, sanitize_indexed, sanitize_object,
}

module _ (js : Js) (index_key : ℕ → String) where
  -- The fields of an object `depth` levels down: none below the fourth level; one with a sensitive key says
  -- only that it was taken out; lists have at most twenty elements, and so on inside. No error is left.
  mutual
    pub AreRedacted : ℕ → LogFields js.Num → Type 0
    AreRedacted depth end = Unit
    AreRedacted depth (field key value fs) =
        (ltb 4 depth ≡ false)
        × (is_sensitive js index_key key ≡ true → value ≡ str "REDACTED")
        × IsRedacted depth value
        × AreRedacted depth fs

    pub IsRedacted : ℕ → LogValue js.Num → Type 0
    IsRedacted depth undefined = Unit
    IsRedacted depth null = Unit
    IsRedacted depth (bool b) = Unit
    IsRedacted depth (num n) = Unit
    IsRedacted depth (str s) = Unit
    IsRedacted depth (error message) = ⊥
    IsRedacted depth (arr xs) = AreShort depth 20 xs
    IsRedacted depth (obj fs) = AreRedacted (suc depth) fs

    pub AreShort : ℕ → ℕ → LogItems js.Num → Type 0
    AreShort depth left nil = Unit
    AreShort depth zero (cons x xs) = ⊥
    AreShort depth (suc left) (cons x xs) = IsRedacted depth x × AreShort depth left xs

  redacted :
      (b : Bool) (v : LogValue js.Num) → b ≡ true → or_redacted js index_key b v ≡ str "REDACTED"
  redacted true v h = refl
  redacted false v h = absurd (ground arith)

  or_redacted-IsRedacted :
      (depth : ℕ) (b : Bool) (v : LogValue js.Num)
      → IsRedacted depth v
      → IsRedacted depth (or_redacted js index_key b v)
  unfolding IsRedacted
  or_redacted-IsRedacted depth true v h = tt
  or_redacted-IsRedacted depth false v h = h

  unless_deep-AreRedacted :
      (depth : ℕ) (fs : LogFields js.Num)
      → (ltb 4 depth ≡ false → AreRedacted depth fs)
      → AreRedacted depth (unless_deep js index_key depth fs)
  unfolding AreRedacted
  unless_deep-AreRedacted depth fs h = elim (Bool-cases (ltb 4 depth)) [
    | inl deep ↦ rw deep tt
    | inr shallow ↦ rw shallow (h shallow)
  ]

  mutual
    unfolding sanitize_fields sanitize_value sanitize_items sanitize_item sanitize_indexed
        AreRedacted IsRedacted AreShort

    clean_fields :
        (depth : ℕ) (fs : LogFields js.Num)
        → ltb 4 depth ≡ false
        → AreRedacted depth (sanitize_fields js index_key depth fs)
    clean_fields depth end h = tt
    clean_fields depth (field key v fs) h = (
      h,
      redacted (is_sensitive js index_key key) (sanitize_value js index_key depth v),
      or_redacted-IsRedacted depth (is_sensitive js index_key key) _ (clean_value depth v),
      clean_fields depth fs h,
    )

    clean_value :
        (depth : ℕ) (v : LogValue js.Num) → IsRedacted depth (sanitize_value js index_key depth v)
    clean_value depth undefined = tt
    clean_value depth null = tt
    clean_value depth (bool b) = tt
    clean_value depth (num n) = tt
    clean_value depth (str s) = tt
    clean_value depth (error message) = tt
    clean_value depth (arr xs) = clean_items depth 20 xs
    clean_value depth (obj fs) = unless_deep-AreRedacted (suc depth) _ (clean_fields (suc depth) fs)

    clean_items :
        (depth left : ℕ) (xs : LogItems js.Num)
        → AreShort depth left (sanitize_items js index_key depth left xs)
    clean_items depth left nil = tt
    clean_items depth zero (cons x xs) = tt
    clean_items depth (suc left) (cons x xs) = (clean_item depth x, clean_items depth left xs)

    clean_item :
        (depth : ℕ) (v : LogValue js.Num) → IsRedacted depth (sanitize_item js index_key depth v)
    clean_item depth undefined = tt
    clean_item depth null = tt
    clean_item depth (bool b) = tt
    clean_item depth (num n) = tt
    clean_item depth (str s) = tt
    clean_item depth (error message) = tt
    clean_item depth (arr xs) =
        unless_deep-AreRedacted (suc depth) _ (clean_indexed (suc depth) 0 xs)
    clean_item depth (obj fs) = unless_deep-AreRedacted (suc depth) _ (clean_fields (suc depth) fs)

    clean_indexed :
        (depth i : ℕ) (xs : LogItems js.Num)
        → ltb 4 depth ≡ false
        → AreRedacted depth (sanitize_indexed js index_key depth i xs)
    clean_indexed depth i nil h = tt
    clean_indexed depth i (cons x xs) h = (
      h,
      redacted (is_sensitive js index_key (index_key i)) (sanitize_value js index_key depth x),
      or_redacted-IsRedacted depth (is_sensitive js index_key (index_key i)) _
          (clean_value depth x),
      clean_indexed depth (suc i) xs h,
    )

  -- Whatever metadata a log entry is given, in what is written of it every field with a sensitive key, at
  -- any depth, holds only "REDACTED"; no object reaches further down than the fourth level, no list that
  -- stands in a field has more than twenty elements, and no error is left.
  pub sanitize_object-AreRedacted :
      (input : LogFields js.Num) → AreRedacted 0 (sanitize_object js index_key input 0)
  unfolding sanitize_object
  sanitize_object-AreRedacted input = unless_deep-AreRedacted 0 _ (clean_fields 0 input)

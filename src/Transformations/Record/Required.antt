-- ===== src/Transformations/Record/Required.antt =====
-- Required fields, and the errors that a compiled mapping can still throw.
use mathlib.Core.List.{Memᴰ}
use sync_bridge_platform.Base.{
  ℕ, String, true, false, Option, none, some, List, [], ◌∷◌, ◌++◌, ◌≡◌, refl, ◌∙◌, ap, ◌≤◌, ◌≢◌,
  ◌⊎◌, inl, inr, arith, ok, err, >>=-eq-ok, Result-cases, is_ok, All, length, length-append,
}
use sync_bridge_platform.Js.{Js, Json, Fields, Unknown, given}
use sync_bridge_platform.Paths.{split_path, get_by_path, set_by_path}
use sync_bridge_platform.Paths.Laws.{Diverge, IsOwn, get_by_path-set_by_path_self}
use sync_bridge_platform.Transformations.Mapping.{ComputeMode, NormalizedMappingField}
use sync_bridge_platform.Transformations.Mapping.Laws.{IsUsable, IsSafePath}
use sync_bridge_platform.Transformations.Record.{
  Coercion, coerced, refused, is_missing_value, coerce_value, Progress, current_value, or_default,
  store, settle, transform_field, transform_fields, transform_record_with_compiled_mapping,
}
use sync_bridge_platform.Transformations.Record.Laws.{
  IsSource, FieldStep, skipped, failed, stored, transform_field_sound, FieldStep-errors,
  transform_fields-errors, transform_fields-frame,
}

module _ (js : Js) (computed : ComputeMode → ℕ → String) where
  -- The value of a field in the output: the coercion, at the output path, of what the field found in the
  -- record or of its default, which is not missing.
  pub record Holds (raw : Fields js.Num) (f : NormalizedMappingField js.Num)
      (output : Fields js.Num) : Type 0 where
    pub source : Unknown js.Num
    pub from_record : IsSource js computed raw f source
    pub present : is_missing_value source ≡ false
    pub value : Json js.Num
    pub by_coercion : coerce_value js source f ≡ ok (coerced value)
    pub at_path : get_by_path output f.output_path ≡ ok (given value)

  FieldStep-Holds :
      (raw : Fields js.Num) (f : NormalizedMappingField js.Num) (p q : Progress js computed)
      → FieldStep js computed raw f p q
      → f.required ≡ true
      → length q.errors ≤ length p.errors
      → Holds raw f q.normalized
  FieldStep-Holds raw f p q (skipped r n e) required le = cc
  FieldStep-Holds raw f p q (failed x s n e) required le =
      absurd (omega (arith, ap (λ es. length es) e, length-append p.errors (x ∷ [])))
  FieldStep-Holds raw f p q (stored u v s m c w e) required le = record {
    source = u;
    from_record = s;
    present = m;
    value = v;
    by_coercion = c;
    at_path = get_by_path-set_by_path_self p.normalized f.output_path v q.normalized w;
  }

  transform_fields-Holds :
      (raw : Fields js.Num) (p q : Progress js computed)
      (before : List (NormalizedMappingField js.Num))
      → (f : NormalizedMappingField js.Num) (after : List (NormalizedMappingField js.Num))
      → transform_fields js computed raw p (before ++ f ∷ after) ≡ ok q
      → f.required ≡ true
      → length q.errors ≤ length p.errors
      → All (λ g. Diverge (split_path g.output_path) (split_path f.output_path)) after
      → IsOwn (split_path f.output_path)
      → Holds raw f q.normalized
  unfolding transform_fields
  transform_fields-Holds raw p q [] f after h required le apart fresh =
      let (r, e, k) = >>=-eq-ok (transform_field js computed raw p f) _ h in
      let (grows, _) = transform_fields-errors js computed raw r q after k in
      let held =
        FieldStep-Holds raw f p r (transform_field_sound js computed raw p r f e) required
          (omega arith) in
      record {
        source = held.source;
        from_record = held.from_record;
        present = held.present;
        value = held.value;
        by_coercion = held.by_coercion;
        at_path =
            transform_fields-frame js computed raw r q after f.output_path k apart fresh
            ∙ held.at_path;
      }
  transform_fields-Holds raw p q (g ∷ before) f after h required le apart fresh =
      let (r, e, k) = >>=-eq-ok (transform_field js computed raw p g) _ h in
      let (grows, _) =
        FieldStep-errors js computed raw g p r (transform_field_sound js computed raw p r g e) in
      transform_fields-Holds raw r q before f after k required (omega arith) apart fresh

  -- A record that is transformed with no error has a value for every required field, if no later field of
  -- the mapping writes to its output path, above it or below it, and no segment of the path names a
  -- function of `Object.prototype`: what the field computed, or found at its source path in the record,
  -- or its default if that was missing, is not missing, and its coercion stands at the output path.
  pub required_field_present :
      (raw : Fields js.Num) (calls : ℕ) (q : Progress js computed)
      → (before : List (NormalizedMappingField js.Num)) (f : NormalizedMappingField js.Num)
      → (after : List (NormalizedMappingField js.Num))
      → transform_record_with_compiled_mapping js computed raw (before ++ f ∷ after) calls ≡ ok q
      → q.errors ≡ []
      → f.required ≡ true
      → All (λ g. Diverge (split_path g.output_path) (split_path f.output_path)) after
      → IsOwn (split_path f.output_path)
      → Holds raw f q.normalized
  unfolding transform_record_with_compiled_mapping
  required_field_present raw calls q before f after h clean required apart fresh =
      transform_fields-Holds raw _ q before f after h required (rw clean (omega arith)) apart fresh

  get_by_path-safe :
      (raw : Fields js.Num) (path : String) → IsSafePath path → is_ok (get_by_path raw path) ≡ true
  unfolding get_by_path
  get_by_path-safe raw path safe = ground arith

  set_by_path-safe :
      (target : Fields js.Num) (path : String) (v : Json js.Num)
      → IsSafePath path
      → is_ok (set_by_path target path v) ≡ true
  unfolding set_by_path
  set_by_path-safe target path v safe = ground arith

  -- The error that a field lets out comes from the coercion of some value.
  abbrev pub Throws : NormalizedMappingField js.Num → String → Type 0
  Throws f message = (u : Unknown js.Num) × (coerce_value js u f ≡ err message)

  store_total :
      (p : Progress js computed) (f : NormalizedMappingField js.Num) (c : Coercion js.Num)
      → IsUsable f
      → is_ok (store js computed p f c) ≡ true
  unfolding store
  store_total p f (refused message) usable = refl
  store_total p f (coerced v) usable =
      ground (arith, set_by_path-safe p.normalized f.output_path v usable.output_safe)

  settle-throws :
      (p : Progress js computed) (f : NormalizedMappingField js.Num) (u : Unknown js.Num)
      (message : String)
      → IsUsable f
      → settle js computed p f u ≡ err message
      → coerce_value js u f ≡ err message
  unfolding settle
  settle-throws p f u message usable h = elim (Result-cases (coerce_value js u f)) [
    | inl (c, e) ↦ ground (arith, store_total p f c usable)
    | inr (m, e) ↦ ground arith
  ]

  current_value_total :
      (f : NormalizedMappingField js.Num) (raw : Fields js.Num) (calls : ℕ)
      → IsUsable f
      → is_ok (current_value js computed f.compute raw f.source_path calls) ≡ true
  current_value_total f raw calls usable = go f.compute usable.source_safe
    where
      go :
          (c : Option ComputeMode)
          → IsSafePath f.source_path ⊎ (c ≢ none)
          → is_ok (current_value js computed c raw f.source_path calls) ≡ true
      go (some mode) d = refl
      go none (inl safe) = ground (arith, get_by_path-safe raw f.source_path safe)
      go none (inr wrong) = absurd (wrong refl)

  transform_field-Throws :
      (raw : Fields js.Num) (p : Progress js computed) (f : NormalizedMappingField js.Num)
      (message : String)
      → IsUsable f
      → transform_field js computed raw p f ≡ err message
      → Throws f message
  unfolding transform_field
  transform_field-Throws raw p f message usable h =
      elim (Result-cases (current_value js computed f.compute raw f.source_path p.calls)) [
        | inl ((found, calls), e) ↦ (
          or_default found f.default_value,
          settle-throws (record p { calls = calls }) f (or_default found f.default_value) message
              usable (rw e at h),
        )
        | inr (m, e) ↦ cc (current_value_total f raw p.calls usable)
      ]

  -- With a mapping that compiled, the transformation of a record throws only what the coercion of
  -- some field throws: the paths of the mapping never make it fail.
  pub transform_fields-Throws :
      (raw : Fields js.Num) (p : Progress js computed)
      (fields : List (NormalizedMappingField js.Num))
      → (message : String) → All IsUsable fields
      → transform_fields js computed raw p fields ≡ err message
      → (f : NormalizedMappingField js.Num) × Memᴰ f fields × Throws f message
  unfolding transform_fields
  transform_fields-Throws raw p [] message usable h = cc
  transform_fields-Throws raw p (f ∷ fields) message (good, usable) h =
      elim (Result-cases (transform_field js computed raw p f)) [
        | inl (q, e) ↦
            let (g, m, t) = transform_fields-Throws raw q fields message usable (rw e at h) in
            (g, Memᴰ.tail m, t)
        | inr (m, e) ↦ (f, Memᴰ.head refl, transform_field-Throws raw p f message good (cc))
      ]

-- ===== src/Transformations/Record/Laws.antt =====
-- What the transformation of a record by a compiled mapping does, field by field and as a whole.
use mathlib.Core.Path.{subst}
use sync_bridge_platform.Base.{
  ℕ, ◌+◌, ◌≤◌, String, Bool, true, false, Option, none, some, ap, List, [], ◌∷◌, ◌++◌, ◌≡◌, refl,
  ◌∙◌, if◌then◌else◌, arith, ok, ◌>>=◌, >>=-eq-ok, ok-injective, All, length, length-append,
}
use sync_bridge_platform.Js.{Js, Json, Fields, Unknown, given, str}
use sync_bridge_platform.Paths.{split_path, get_by_path, set_by_path}
use sync_bridge_platform.Paths.Laws.{Diverge, IsOwn, get_by_path-set_by_path_ne}
use sync_bridge_platform.Transformations.Errors.{
  TransformationErrorDetail, create_transformation_error, required_field_missing,
}
use sync_bridge_platform.Transformations.Mapping.{around, ComputeMode, NormalizedMappingField}
use sync_bridge_platform.Transformations.Record.{
  add_error, Coercion, coerced, refused, is_missing_value, coerce_value, Progress, current_value,
  or_default, store, settle, transform_field, transform_fields,
}

module _ (js : Js) (computed : ComputeMode → ℕ → String) where
  -- What the field `f` finds in a record: a computed value, or what stands at its source path.
  pub data Found (raw : Fields js.Num) (f : NormalizedMappingField js.Num)
      : Unknown js.Num → Type 0 where
    by_computing :
        (mode : ComputeMode) (n : ℕ)
        → f.compute ≡ some mode
        → Found raw f (given (str (computed mode n)))
    at_source :
        (found : Unknown js.Num)
        → f.compute ≡ none
        → get_by_path raw f.source_path ≡ ok found
        → Found raw f found

  -- The value that is coerced: what was found, or the default in its place.
  abbrev pub IsSource : Fields js.Num → NormalizedMappingField js.Num → Unknown js.Num → Type 0
  IsSource raw f u =
      (found : Unknown js.Num) × Found raw f found × (u ≡ or_default found f.default_value)

  -- The three things that the loop's body can do with a field: pass it over, report an error and
  -- leave the output alone, or store the coerced value.
  pub data FieldStep (raw : Fields js.Num) (f : NormalizedMappingField js.Num)
      (p q : Progress js computed) : Type 0 where
    skipped :
        f.required ≡ false → q.normalized ≡ p.normalized → q.errors ≡ p.errors → FieldStep raw f p q
    failed :
        (e : TransformationErrorDetail)
        → e.field ≡ f.output_path
        → q.normalized ≡ p.normalized
        → q.errors ≡ p.errors ++ e ∷ []
        → FieldStep raw f p q
    stored :
        (u : Unknown js.Num) (v : Json js.Num)
        → IsSource raw f u
        → is_missing_value u ≡ false
        → coerce_value js u f ≡ ok (coerced v)
        → set_by_path p.normalized f.output_path v ≡ ok q.normalized
        → q.errors ≡ p.errors
        → FieldStep raw f p q

  store_sound :
      (raw : Fields js.Num) (p q : Progress js computed) (f : NormalizedMappingField js.Num)
      (u : Unknown js.Num) (c : Coercion js.Num)
      → IsSource raw f u
      → is_missing_value u ≡ false
      → coerce_value js u f ≡ ok c
      → store js computed p f c ≡ ok q
      → FieldStep raw f p q
  unfolding store
  store_sound raw p q f u (refused message) source present e h =
      subst (λ r. FieldStep raw f p r) (ok-injective h) (failed _ refl refl refl)
  store_sound raw p q f u (coerced v) source present e h =
      let (normalized, written, made) = >>=-eq-ok (set_by_path p.normalized f.output_path v) _ h in
      subst (λ r. FieldStep raw f p r) (ok-injective made)
        (stored u v source present e written refl)

  settle_sound :
      (raw : Fields js.Num) (p q : Progress js computed) (f : NormalizedMappingField js.Num)
      (u : Unknown js.Num)
      → IsSource raw f u
      → settle js computed p f u ≡ ok q
      → FieldStep raw f p q
  unfolding settle
  settle_sound raw p q f u source h = go (is_missing_value u) f.required refl refl h
    where
      go :
          (missing required : Bool)
          → f.required ≡ required
          → is_missing_value u ≡ missing
          → (if missing
              then ok (
                  if required
                  then add_error js computed p (
                      create_transformation_error f.output_path required_field_missing
                        (around "Required field " f.output_path " is missing")
                        (some f.source_path))
                  else p)
              else coerce_value js u f >>= store js computed p f)
            ≡ ok q
          → FieldStep raw f p q
      go true true r m k =
          subst (λ r. FieldStep raw f p r) (ok-injective k) (failed _ refl refl refl)
      go true false r m k = subst (λ r. FieldStep raw f p r) (ok-injective k) (skipped r refl refl)
      go false required r m k =
          let (c, e, k') = >>=-eq-ok (coerce_value js u f) _ k in
          store_sound raw p q f u c source m e k'

  current_value-Found :
      (raw : Fields js.Num) (f : NormalizedMappingField js.Num) (found : Unknown js.Num)
      (calls later : ℕ)
      → current_value js computed f.compute raw f.source_path calls ≡ ok (found, later)
      → Found raw f found
  current_value-Found raw f found calls later h = go f.compute refl h
    where
      go :
          (c : Option ComputeMode)
          → f.compute ≡ c
          → current_value js computed c raw f.source_path calls ≡ ok (found, later)
          → Found raw f found
      go (some mode) e k =
          subst (Found raw f) (ap (λ x. x.0) (ok-injective k)) (by_computing mode calls e)
      go none e k =
          let (value, got, made) = >>=-eq-ok (get_by_path raw f.source_path) _ k in
          at_source found e (got ∙ ap (λ (x : Unknown js.Num × ℕ). ok x.0) (ok-injective made))

  -- Each field of a mapping is passed over (then it is not required), reported as an error (then the
  -- output is left alone), or stored.
  pub transform_field_sound :
      (raw : Fields js.Num) (p q : Progress js computed) (f : NormalizedMappingField js.Num)
      → transform_field js computed raw p f ≡ ok q
      → FieldStep raw f p q
  unfolding transform_field
  transform_field_sound raw p q f h =
      let ((found, calls), e, k) =
        >>=-eq-ok (current_value js computed f.compute raw f.source_path p.calls) _ h in
      reframe (
        settle_sound raw (record p { calls = calls }) q f (or_default found f.default_value)
          (found, current_value-Found raw f found p.calls calls e, refl) k)
    where
      reframe : {calls : ℕ} → FieldStep raw f (record p { calls = calls }) q → FieldStep raw f p q
      reframe (skipped r n e) = skipped r n e
      reframe (failed x s n e) = failed x s n e
      reframe (stored u v s m c w e) = stored u v s m c w e

  pub FieldStep-errors :
      (raw : Fields js.Num) (f : NormalizedMappingField js.Num) (p q : Progress js computed)
      → FieldStep raw f p q
      → (length p.errors ≤ length q.errors) × (length q.errors ≤ length p.errors + 1)
  FieldStep-errors raw f p q (skipped r n e) = rw e (omega arith, omega arith)
  FieldStep-errors raw f p q (failed x s n e) =
      rw (e, length-append p.errors (x ∷ [])) (omega arith, omega arith)
  FieldStep-errors raw f p q (stored u v s m c w e) = rw e (omega arith, omega arith)

  -- A record gets at most one error for each field of the mapping, and no error is taken back.
  pub transform_fields-errors :
      (raw : Fields js.Num) (p q : Progress js computed)
      (fields : List (NormalizedMappingField js.Num))
      → transform_fields js computed raw p fields ≡ ok q
      → (length p.errors ≤ length q.errors) × (length q.errors ≤ length p.errors + length fields)
  unfolding transform_fields
  transform_fields-errors raw p q [] h = rw (← ok-injective h) (omega arith, omega arith)
  transform_fields-errors raw p q (f ∷ fields) h =
      let (r, e, k) = >>=-eq-ok (transform_field js computed raw p f) _ h in
      let (a, b) = FieldStep-errors raw f p r (transform_field_sound raw p r f e) in
      let (c, d) = transform_fields-errors raw r q fields k in (omega arith, omega arith)

  -- Fields whose output paths part ways with a path leave what is read there alone.
  pub transform_fields-frame :
      (raw : Fields js.Num) (p q : Progress js computed)
      (fields : List (NormalizedMappingField js.Num))
      → (path : String) → transform_fields js computed raw p fields ≡ ok q
      → All (λ f. Diverge (split_path f.output_path) (split_path path)) fields
      → IsOwn (split_path path)
      → get_by_path q.normalized path ≡ get_by_path p.normalized path
  unfolding transform_fields
  transform_fields-frame raw p q [] path h d fresh = rw (ok-injective h)
  transform_fields-frame raw p q (f ∷ fields) path h (d, ds) fresh =
      let (r, e, k) = >>=-eq-ok (transform_field js computed raw p f) _ h in
      transform_fields-frame raw r q fields path k ds fresh
      ∙ step r (transform_field_sound raw p r f e)
    where
      step :
          (r : Progress js computed)
          → FieldStep raw f p r
          → get_by_path r.normalized path ≡ get_by_path p.normalized path
      step r (skipped _ n _) = rw n
      step r (failed _ _ n _) = rw n
      step r (stored u v _ _ _ w _) =
          get_by_path-set_by_path_ne p.normalized f.output_path path v r.normalized w d fresh

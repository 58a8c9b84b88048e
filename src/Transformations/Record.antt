-- ===== src/Transformations/Record.antt =====
-- apps/api/src/transformations/transformation-engine.service.ts: `transformRecord`, which applies the
-- fields of a compiled mapping to one raw record.
pub mod Laws
pub mod Required
use Prim.Native.String
use mathlib.Core.Option
use sync_bridge_platform.Base.{
  ℕ, suc, String, Bool, true, false, ◌||◌, Option, none, some, List, [], ◌∷◌, ◌++◌, ◌==◌, Result,
  ok, err, ◌>>=◌, map_err, trim, is_empty, any, if◌then◌else◌,
}
use sync_bridge_platform.Js.{
  Js, Json, Fields, Unknown, null, bool, num, str, arr, obj, end, undefined, given, inherited,
}
use sync_bridge_platform.Paths.{get_by_path, set_by_path}
use sync_bridge_platform.Transformations.Errors.{
  TransformationErrorDetail, create_transformation_error, required_field_missing,
  type_coercion_failed,
}
use sync_bridge_platform.Transformations.Mapping.{
  TransformationValueType, string, number, boolean, date, json, ComputeMode, NormalizedMappingField,
  MappingError, runtime_error, around, compile_mapping,
}

-- The result of `coerceValue`.
pub data Coercion (N : Type 0) : Type 0 where
  coerced : Json N → Coercion N
  refused : String → Coercion N

module _ {N : Type 0} where
  unfoldable pub is_missing_value : Unknown N → Bool
  is_missing_value undefined = true
  is_missing_value (given null) = true
  is_missing_value (given (str s)) = is_empty (trim s)
  is_missing_value _ = false

  -- `structuredClone(value)`: a JSON value is copied, a function cannot be. A value that is
  -- undefined does not get there.
  abbrev pub structured_clone : Unknown N → Result String (Json N)
  structured_clone (given v) = ok v
  structured_clone (inherited name) =
      err (String.◌++◌ "function " (String.◌++◌ name "() { [native code] } could not be cloned."))
  structured_clone undefined = ok null

  abbrev or_default : Unknown N → Option (Json N) → Unknown N
  or_default value none = value
  or_default value (some d) = if is_missing_value value then given d else value

module _ (js : Js) where
  abbrev when : Bool → (String → String) → String → String
  when true f s = f s
  when false f s = s

  -- The case 'string' behind `String(value)`.
  unfoldable pub normalize_text : NormalizedMappingField js.Num → String → String
  normalize_text f text =
      when f.uppercase js.to_upper (when f.lowercase js.to_lower (when f.trims trim text))

  abbrev number_candidate : Unknown js.Num → Option js.Num
  number_candidate (given (num n)) = some n
  number_candidate (given (str s)) = some (js.to_number (trim s))
  number_candidate _ = none

  abbrev finite : Option js.Num → Option js.Num
  finite none = none
  finite (some n) = if js.is_finite n then some n else none

  abbrev boolean_text : String → Option Bool
  boolean_text text =
      if any (λ t. t == text) ("true" ∷ "1" ∷ "yes" ∷ [])
      then some true
      else if any (λ t. t == text) ("false" ∷ "0" ∷ "no" ∷ [])
      then some false
      else none

  boolean_of : Unknown js.Num → Option Bool
  boolean_of (given (bool b)) = some b
  boolean_of (given (num n)) =
      if js.num_eq n js.one_num
      then some true
      else if js.num_eq n js.zero_num
      then some false
      else none
  boolean_of (given (str s)) = boolean_text (js.to_lower (trim s))
  boolean_of _ = none

  abbrev or_refuse : Option (Json js.Num) → String → String → Coercion js.Num
  or_refuse (some v) path kind = coerced v
  or_refuse none path kind = refused (around (around "Cannot coerce field " path " to ") kind "")

  -- `coerceValue`; `err` is an error that it throws.
  coerce_to :
      TransformationValueType
      → Unknown js.Num
      → NormalizedMappingField js.Num
      → Result String (Coercion js.Num)
  coerce_to json value f = do v ← structured_clone value; ok (coerced v)
  coerce_to string value f = do text ← js.to_text value; ok (coerced (str (normalize_text f text)))
  coerce_to number value f =
      ok (or_refuse (Option.map num (finite (number_candidate value))) f.output_path "number")
  coerce_to boolean value f =
      ok (or_refuse (Option.map bool (boolean_of value)) f.output_path "boolean")
  coerce_to date value f = do
    text ← js.to_text value
    ok (or_refuse (Option.map (λ t. str (js.to_iso t)) (js.parse_date text)) f.output_path "date")

  unfoldable pub coerce_value :
      Unknown js.Num → NormalizedMappingField js.Num → Result String (Coercion js.Num)
  unfolding coerce_to normalize_text boolean_of
  coerce_value value f = coerce_to f.type value f

  pub record TransformationResult : Type 0 where
    pub normalized : Fields js.Num
    pub errors : List TransformationErrorDetail

  -- `computed mode n` is what `new Date().toISOString()` or `randomUUID()` gives at the n-th such
  -- call of the process.
  module _ (computed : ComputeMode → ℕ → String) where
    -- What the loop of `transformRecordWithCompiledMapping` carries on; `calls` counts the calls of
    -- `computeValue`.
    pub record Progress : Type 0 where
      pub result : TransformationResult
      pub open result use *
      pub calls : ℕ

    abbrev current_value :
        Option ComputeMode → Fields js.Num → String → ℕ → Result String (Unknown js.Num × ℕ)
    current_value (some mode) raw path calls = ok (given (str (computed mode calls)), suc calls)
    current_value none raw path calls = do value ← get_by_path raw path; ok (value, calls)

    abbrev add_error : Progress → TransformationErrorDetail → Progress
    add_error p e = record p { result = record p.result { errors = p.errors ++ e ∷ [] } }

    store : Progress → NormalizedMappingField js.Num → Coercion js.Num → Result String Progress
    store p f (refused message) = ok (
        add_error p (
          create_transformation_error f.output_path type_coercion_failed message
            (some f.source_path)))
    store p f (coerced value) = do
      normalized ← set_by_path p.normalized f.output_path value
      ok (record p { result = record p.result { normalized = normalized } })

    -- The loop's body behind the default: the checks of a missing value, and the coercion.
    settle : Progress → NormalizedMappingField js.Num → Unknown js.Num → Result String Progress
    unfolding store
    settle p f value =
        if is_missing_value value
        then ok (
            if f.required
            then add_error p (
                create_transformation_error f.output_path required_field_missing
                  (around "Required field " f.output_path " is missing") (some f.source_path))
            else p)
        else coerce_value value f >>= store p f

    unfoldable pub transform_field :
        Fields js.Num → Progress → NormalizedMappingField js.Num → Result String Progress
    unfolding settle
    transform_field raw p f = do
      (found, calls) ← current_value f.compute raw f.source_path p.calls
      settle (record p { calls = calls }) f (or_default found f.default_value)

    unfoldable pub transform_fields :
        Fields js.Num → Progress → List (NormalizedMappingField js.Num) → Result String Progress
    transform_fields raw p [] = ok p
    transform_fields raw p (f ∷ fields) =
        transform_field raw p f >>= λ q. transform_fields raw q fields

    -- `transformRecordWithCompiledMapping`, after `calls` calls of `computeValue`.
    unfoldable pub transform_record_with_compiled_mapping :
        Fields js.Num → List (NormalizedMappingField js.Num) → ℕ → Result String Progress
    unfolding transform_fields
    transform_record_with_compiled_mapping raw fields calls =
        transform_fields raw
          (record { result = record { normalized = end; errors = [] }; calls = calls }) fields

    unfoldable pub transform_record :
        Fields js.Num → Fields js.Num → ℕ → Result MappingError Progress
    unfolding transform_record_with_compiled_mapping
    transform_record raw mapping calls = do
      fields ← compile_mapping js mapping
      map_err runtime_error (transform_record_with_compiled_mapping raw fields calls)

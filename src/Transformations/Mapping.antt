-- ===== src/Transformations/Mapping.antt =====
-- apps/api/src/transformations/transformation-engine.service.ts: `compileMapping`, which checks a
-- mapping and brings its fields to one form, and `validateMapping`.

pub mod Laws
use Prim.Native.String
use sync_bridge_platform.Base.{
  String, Bool, true, false, ◌&&◌, Option, none, some, List, [], ◌∷◌, ◌++◌, map, ◌==◌, Result, ok,
  err, ◌>>=◌, ◌>>◌, map_err, throw_if, trim, is_empty, if◌then◌else◌,
}
use sync_bridge_platform.Js.{
  Js, Json, Fields, Unknown, null, bool, str, obj, undefined, given, own, read, entries, truthy,
}
use sync_bridge_platform.Paths.{assert_safe_path}
use sync_bridge_platform.Transformations.Errors.{
  TransformationErrorDetail, TransformationErrorCode, create_transformation_error, mapping_invalid,
  unsupported_type, path_unsafe,
}

pub data TransformationValueType : Type 0 where
  string number boolean date json : TransformationValueType

pub data ComputeMode : Type 0 where
  now uuid : ComputeMode

-- `default_value` is `some` exactly if `hasDefault` is set.
pub record NormalizedMappingField (N : Type 0) : Type 0 where
  pub output_path : String
  pub source_path : String
  pub required : Bool
  pub default_value : Option (Json N)
  pub type : TransformationValueType
  pub trims : Bool
  pub lowercase : Bool
  pub uppercase : Bool
  pub compute : Option ComputeMode

-- `a + b + c` on texts.
abbrev pub around : String → String → String → String
around before name after = String.◌++◌ before (String.◌++◌ name after)

-- What the body of the loop of `compileMapping` does without a field: it pushes an error and goes
-- on, or it lets an error of the runtime out.
pub data Issue : Type 0 where
  reported : TransformationErrorDetail → Issue
  thrown : String → Issue

-- What `compileMapping` throws: `MappingValidationError`, or an error of the runtime.
pub data MappingError : Type 0 where
  invalid_mapping : List TransformationErrorDetail → MappingError
  runtime_error : String → MappingError

abbrev fail_with : String → TransformationErrorCode → String → Option String → Issue
fail_with output_path code message path =
    reported (create_transformation_error output_path code message path)

-- A value that has to be one of those known; the message shows it.
abbrev if_unsupported {ℓ} :
    {A : Type ℓ} → Option A → Result Issue String → (String → Issue) → Result Issue A
if_unsupported (some a) shown issue = ok a
if_unsupported none shown issue = do text ← shown; err (issue text)

-- `SUPPORTED_TYPES.has(definition.type ?? 'json')`, with the type that is meant.
type_named : String → Option TransformationValueType
type_named name =
    if name == "string"
    then some string
    else if name == "number"
    then some number
    else if name == "boolean"
    then some boolean
    else if name == "date"
    then some date
    else if name == "json"
    then some json
    else none

-- `none` is a value that is neither undefined nor a known mode.
compute_named : String → Option (Option ComputeMode)
compute_named name =
    if name == "now" then some (some now) else if name == "uuid" then some (some uuid) else none

-- The two calls of `assertSafePath` under `try`.
abbrev check_paths : String → String → Result String (List String)
check_paths output_path source_path = do
  segments ← assert_safe_path output_path
  if is_empty source_path then ok segments else assert_safe_path source_path

module _ {N : Type 0} where
  unfoldable pub supported_type : Unknown N → Option TransformationValueType
  unfolding type_named
  supported_type undefined = some json
  supported_type (given null) = some json
  supported_type (given (str name)) = type_named name
  supported_type _ = none

  unfoldable pub compute_mode : Unknown N → Option (Option ComputeMode)
  unfolding compute_named
  compute_mode undefined = some none
  compute_mode (given (str name)) = compute_named name
  compute_mode _ = none

  abbrev is_undefined : Unknown N → Bool
  is_undefined undefined = true
  is_undefined _ = false

  -- `value === true`
  abbrev is_true : Unknown N → Bool
  is_true (given (bool b)) = b
  is_true _ = false

  -- `typeof definition.path === 'string' ? definition.path.trim() : ''`
  abbrev source_path_of : Unknown N → String
  source_path_of (given (str path)) = trim path
  source_path_of _ = ""

module _ {N : Type 0} where
  -- A mapping that is a path only.
  unfoldable pub compile_shorthand : String → String → Result Issue (NormalizedMappingField N)
  compile_shorthand output_path value =
      map_err (λ message. fail_with output_path path_unsafe message (some value))
        (do
          segments ← assert_safe_path output_path
          source ← assert_safe_path value
          ok (record {
            output_path = output_path;
            source_path = value;
            required = false;
            default_value = none;
            type = json;
            trims = false;
            lowercase = false;
            uppercase = false;
            compute = none;
          }))

module _ (js : Js) where
  -- `${value}` in a message.
  abbrev show : Unknown js.Num → Result Issue String
  show value = map_err thrown (js.to_text value)

  abbrev pub compiled_field :
      String
      → String
      → TransformationValueType
      → Option ComputeMode
      → Fields js.Num
      → NormalizedMappingField js.Num
  compiled_field output_path source_path type compute definition = record {
    output_path = output_path;
    source_path = source_path;
    required = is_true (read definition "required");
    default_value = own definition "default";
    type = type;
    trims = is_true (read definition "trim");
    lowercase = is_true (read definition "lowercase");
    uppercase = is_true (read definition "uppercase");
    compute = compute;
  }

  unfoldable pub compile_definition :
      String → Fields js.Num → Result Issue (NormalizedMappingField js.Num)
  compile_definition output_path definition = do
    let source_path = source_path_of (read definition "path")
    throw_if (is_empty source_path && is_undefined (read definition "compute")) (
        fail_with output_path mapping_invalid
          (around "Field mapping for " output_path " must include a non-empty path or compute mode")
          none)
    segments ←
        map_err (λ message. fail_with output_path path_unsafe message (some source_path))
          (check_paths output_path source_path)
    type ←
        if_unsupported (supported_type (read definition "type")) (show (read definition "type"))
          (λ shown.
            fail_with output_path unsupported_type
              (around (around "Unsupported field type for " output_path ": ") shown "")
              (some source_path))
    compute ←
        if_unsupported (compute_mode (read definition "compute")) (show (read definition "compute"))
          (λ shown.
            fail_with output_path mapping_invalid
              (around (around "Unsupported compute mode for " output_path ": ") shown "")
              (some source_path))
    throw_if (truthy js (read definition "lowercase") && truthy js (read definition "uppercase")) (
        fail_with output_path mapping_invalid
          (around "Field " output_path " cannot set both lowercase and uppercase")
          (some source_path))
    ok (compiled_field output_path source_path type compute definition)

  -- The body of the loop over the candidates.
  unfoldable pub compile_candidate :
      String → Json js.Num → Result Issue (NormalizedMappingField js.Num)
  unfolding compile_shorthand compile_definition
  compile_candidate output_path (str path) = compile_shorthand output_path path
  compile_candidate output_path (obj definition) = compile_definition output_path definition
  compile_candidate output_path _ = err (
      fail_with output_path mapping_invalid
        (around "Field mapping for " output_path " must be an object") none)

  abbrev pub Compiled : Type 0
  Compiled = List TransformationErrorDetail × List (NormalizedMappingField js.Num)

  -- `errors.push`, `normalizedFields.push`
  abbrev push : Result Issue (NormalizedMappingField js.Num) → Compiled → Result String Compiled
  push (ok f) (errors, fields) = ok (errors, fields ++ f ∷ [])
  push (err (reported e)) (errors, fields) = ok (errors ++ e ∷ [], fields)
  push (err (thrown message)) (errors, fields) = err message

  unfoldable pub compile_candidates :
      List (String × Json js.Num) → Compiled → Result String Compiled
  compile_candidates [] so_far = ok so_far
  compile_candidates ((output_path, value) ∷ more) so_far =
      push (compile_candidate output_path value) so_far >>= compile_candidates more

  -- `extractMappingCandidates`: the errors pushed, and the candidates.
  abbrev candidates_in :
      Unknown js.Num → Fields js.Num → List TransformationErrorDetail × List (String × Json js.Num)
  candidates_in undefined mapping = ([], entries mapping)
  candidates_in (given (obj fields)) mapping = ([], entries fields)
  candidates_in _ mapping = (
    create_transformation_error "fields" mapping_invalid "mappingJson.fields must be an object" none
        ∷ [],
    [],
  )

  abbrev pub extract_mapping_candidates :
      Fields js.Num → List TransformationErrorDetail × List (String × Json js.Num)
  extract_mapping_candidates mapping = candidates_in (read mapping "fields") mapping

  -- `if (errors.length > 0) throw new MappingValidationError(errors)`
  abbrev finish :
      Result String Compiled → Result MappingError (List (NormalizedMappingField js.Num))
  finish (err message) = err (runtime_error message)
  finish (ok ([], fields)) = ok fields
  finish (ok (e ∷ errors, fields)) = err (invalid_mapping (e ∷ errors))

  unfoldable pub compile_mapping :
      Fields js.Num → Result MappingError (List (NormalizedMappingField js.Num))
  unfolding compile_candidates
  compile_mapping mapping =
      let (errors, candidates) = extract_mapping_candidates mapping in
      finish (compile_candidates candidates (errors, []))

  pub record MappingValidationResult : Type 0 where
    pub valid : Bool
    pub errors : List String

  abbrev validation :
      Result MappingError (List (NormalizedMappingField js.Num)) → MappingValidationResult
  validation (ok fields) = record { valid = true; errors = [] }
  validation (err (invalid_mapping errors)) = record {
    valid = false;
    errors = map (λ issue. issue.message) errors;
  }
  validation (err (runtime_error message)) = record {
    valid = false;
    errors = "Invalid mappingJson" ∷ [];
  }

  unfoldable pub validate_mapping : Fields js.Num → MappingValidationResult
  unfolding compile_mapping
  validate_mapping mapping = validation (compile_mapping mapping)

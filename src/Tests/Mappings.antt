-- ===== src/Tests/Mappings.antt =====
-- Paths, mappings and the transformation of a record, on concrete data.
use mathlib.Core.List.{Memᴰ}
use sync_bridge_platform.Base.{
  ℕ, String, true, false, none, List, [], ◌∷◌, ◌++◌, ◌≡◌, refl, inl, map, ap, ◌==◌, ok, err, All,
}
use sync_bridge_platform.Js.{own, read, write, Fields, end, field, num, str, obj, given}
use sync_bridge_platform.Paths.{split_path, assert_safe_path, get_by_path, walk, put, set_by_path}
use sync_bridge_platform.Paths.Laws.{Diverge, IsOwn, get_by_path-set_by_path_self}
use sync_bridge_platform.Transformations.Mapping.{
  NormalizedMappingField, string, json, compile_candidate, ComputeMode, compile_mapping,
  extract_mapping_candidates,
}
use sync_bridge_platform.Transformations.Mapping.Laws.{IsUsable, compile_mapping_sound}
use sync_bridge_platform.Transformations.Record.{
  is_missing_value, coerce_value, Progress, transform_field, transform_fields,
  transform_record_with_compiled_mapping,
}
use sync_bridge_platform.Transformations.Record.Required.{
  Holds, required_field_present, Throws, transform_fields-Throws,
}
use sync_bridge_platform.Tests.Data.{runtime, mapping, raw}

abbrev stored : Fields ℕ
stored = field "a" (obj (field "b" (num 1) end)) end

set_a_b : set_by_path end "a.b" (num 1) ≡ ok stored
unfolding set_by_path assert_safe_path put write own
set_a_b = refl

get_by_path-set_by_path_self_example : get_by_path stored "a.b" ≡ ok (given (num 1))
get_by_path-set_by_path_self_example = get_by_path-set_by_path_self end "a.b" (num 1) stored set_a_b

a_b-Diverge : Diverge (split_path "a.b") (split_path "z")
unfolding split_path
a_b-Diverge = inl (λ e. let b : true ≡ false = ap (λ (x : String). x == "a") e in cc)

z-IsOwn : IsOwn (split_path "z")
unfolding split_path
z-IsOwn = (refl, tt)

abbrev a_b : List String
a_b = "a" ∷ "b" ∷ []

-- The field that the mapping compiles to.
abbrev mail : NormalizedMappingField ℕ
mail = record {
  output_path = "contact.email";
  source_path = "user.mail";
  required = false;
  default_value = none;
  type = json;
  trims = false;
  lowercase = false;
  uppercase = false;
  compute = none;
}

abbrev required_mail : NormalizedMappingField ℕ
required_mail = record mail { required = true; type = string }

compiled : compile_mapping runtime mapping ≡ ok (mail ∷ [])
unfolding compile_mapping compile_candidate read own assert_safe_path
compiled = refl

compile_mapping_sound_example :
    All IsUsable (mail ∷ [])
    × (map (λ f. f.output_path) (mail ∷ [])
        ≡ map (λ c. c.0) (extract_mapping_candidates runtime mapping).1)
compile_mapping_sound_example = compile_mapping_sound runtime mapping (mail ∷ []) compiled

abbrev computed : ComputeMode → ℕ → String
computed mode n = "computed"

abbrev start : Progress runtime computed
start = record { result = record { normalized = end; errors = [] }; calls = 0 }

abbrev done : Progress runtime computed
done = record {
  result = record {
    normalized = field "contact" (obj (field "email" (str "a@b") end)) end;
    errors = [];
  };
  calls = 0;
}

mail_transformed : transform_field runtime computed (raw 3) start required_mail ≡ ok done
unfolding transform_field get_by_path assert_safe_path is_missing_value walk read own coerce_value
    set_by_path put write
mail_transformed = refl

record_transformed : transform_fields runtime computed (raw 3) start (required_mail ∷ []) ≡ ok done
unfolding transform_fields transform_field get_by_path assert_safe_path is_missing_value walk read
    own coerce_value set_by_path put write
record_transformed = refl

all_transformed :
    transform_record_with_compiled_mapping runtime computed (raw 3) ([] ++ required_mail ∷ []) 0
    ≡ ok done
unfolding transform_record_with_compiled_mapping transform_field get_by_path assert_safe_path
    is_missing_value walk read own coerce_value set_by_path put write
all_transformed = refl

email-IsOwn : IsOwn (split_path "contact.email")
unfolding split_path
email-IsOwn = (refl, (refl, tt))

required_field_present_example : Holds runtime computed (raw 3) required_mail done.normalized
required_field_present_example =
    required_field_present runtime computed (raw 3) 0 done [] required_mail [] all_transformed refl
      refl tt email-IsOwn

-- A source path that names a function which every object inherits.
abbrev inherited_mapping : Fields ℕ
inherited_mapping = field "out" (str "toString") end

abbrev inherited_field : NormalizedMappingField ℕ
inherited_field = record mail { output_path = "out"; source_path = "toString" }

inherited_compiled : compile_mapping runtime inherited_mapping ≡ ok (inherited_field ∷ [])
unfolding compile_mapping compile_candidate read own assert_safe_path
inherited_compiled = refl

inherited_throws :
    transform_fields runtime computed (raw 3) start (inherited_field ∷ [])
    ≡ err "function toString() { [native code] } could not be cloned."
unfolding transform_fields transform_field get_by_path assert_safe_path is_missing_value walk read
    own coerce_value
inherited_throws = refl

transform_fields-Throws_example :
    (f : NormalizedMappingField ℕ) × Memᴰ f (inherited_field ∷ [])
    × Throws runtime computed f "function toString() { [native code] } could not be cloned."
transform_fields-Throws_example =
    transform_fields-Throws runtime computed (raw 3) start (inherited_field ∷ [])
      "function toString() { [native code] } could not be cloned."
      (compile_mapping_sound runtime inherited_mapping (inherited_field ∷ []) inherited_compiled).0
      inherited_throws

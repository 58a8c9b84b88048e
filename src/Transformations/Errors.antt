-- ===== src/Transformations/Errors.antt =====
-- apps/api/src/transformations/transformation-errors.ts
use sync_bridge_platform.Base.{String, Option}

pub data TransformationErrorCode : Type 0 where
  mapping_invalid required_field_missing type_coercion_failed : TransformationErrorCode
  unsupported_type path_unsafe : TransformationErrorCode

pub record TransformationErrorDetail : Type 0 where
  pub field : String
  pub code : TransformationErrorCode
  pub message : String
  pub path : Option String

abbrev pub create_transformation_error :
    String → TransformationErrorCode → String → Option String → TransformationErrorDetail
create_transformation_error field code message path = record {
  field = field;
  code = code;
  message = message;
  path = path;
}

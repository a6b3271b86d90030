-- ===== src/Validator.antt =====
-- internal/validator: the struct validator that the framework calls, and what a failed bind becomes.
pub mod Classes
pub mod Tags
use go_fiber_starter.Prelude.{ℕ, Option, none, some, List, [], map, String}
use go_fiber_starter.Apperror.{
  Detail, FieldError, GoError, AppError, new_validation, new_bad_request, with_cause,
  find_validation,
}

-- One round of the loop over the violations.
abbrev pub to_detail : FieldError → Detail
to_detail e = record { field = e.field; reason = e.actual_tag }

abbrev pub bind_error_from : Option (List FieldError) → GoError → AppError
bind_error_from (some es) err = with_cause (new_validation (map to_detail es)) err
bind_error_from none err = with_cause (new_bad_request "malformed request body" []) err

unfoldable pub bind_error_to_app_error : GoError → AppError
unfolding find_validation with_cause new_validation new_bad_request
bind_error_to_app_error err = bind_error_from (find_validation err) err

-- The tags `validate` that the requests of the program have.
pub data Rule : Type 0 where
  required omitempty : Rule
  min max : ℕ → Rule

-- A field with tags, by its name in Go. A field that is a nil pointer has no value.
pub record Field : Type 0 where
  pub name : String
  pub value : Option String
  pub rules : List Rule

-- The validator of the library, as the program builds it: an error for the tagged fields of a
-- struct, or nil.
pub record StructValidator : Type 0 where
  pub struct : List Field → Option GoError

-- The method Validate, which the framework calls.
unfoldable pub validate : StructValidator → List Field → Option GoError
validate v out = v.struct out

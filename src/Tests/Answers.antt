-- ===== src/Tests/Answers.antt =====
-- The theorems on paging and on the answers to errors, at concrete numbers and errors.
use go_fiber_starter.Prelude.{◌≡◌, refl, [], arith}
use go_fiber_starter.Prelude.Int.{pos, negsuc}
use go_fiber_starter.Apperror.{
  app, fiber, plain, with_cause, find_app, find_fiber, as_app_error, err_internal, FieldError,
  FiberError,
}
use go_fiber_starter.Pagination.{offset}
use go_fiber_starter.Pagination.Bounds.{offset_overflow}
use go_fiber_starter.Payload.{Payload}
use go_fiber_starter.Validator.{bind_error_to_app_error}
use go_fiber_starter.Router.ErrorHandler.{error_handler}
use go_fiber_starter.Router.Observed.{error_handler_masks, bind_fiber_error_escapes}
use go_fiber_starter.Tests.{request}

-- The largest page that a request can ask for, at the limit 2: the offset is -4.
offset_overflow_example :
    offset (record { page = pos 9223372036854775807; limit = pos 2 }) ≡ negsuc 3
offset_overflow_example =
    offset_overflow 9223372036854775806 2 (omega arith) (omega arith) (omega arith)

abbrev violation : FieldError
violation = record { field = "title"; actual_tag = "required" }

error_handler_masks_example :
    (error_handler Payload (request "1" "") (plain "disk") []).0
    ≡ (error_handler Payload (request "2" "") (app err_internal) []).0
unfolding find_fiber as_app_error with_cause find_app
error_handler_masks_example =
    error_handler_masks Payload (request "1" "") (request "2" "") (plain "disk") (app err_internal)
      [] [] refl refl (omega arith) (omega arith)

abbrev unprocessable : FiberError
unprocessable = record { code = 422; message = "Unprocessable Entity" }

bind_fiber_error_escapes_example :
    (error_handler Payload
      (request "" "")
      (app (bind_error_to_app_error (fiber unprocessable)))
      []).0
    ≡ (error_handler Payload (request "" "") (fiber unprocessable) []).0
unfolding find_fiber
bind_fiber_error_escapes_example =
    bind_fiber_error_escapes Payload (request "" "") (fiber unprocessable) unprocessable [] refl

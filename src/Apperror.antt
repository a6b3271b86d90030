-- ===== src/Apperror.antt =====
-- internal/apperror/errors.go, and Go's `error` values with the walks of `errors.As` and
-- `errors.Is` along their chains of causes.
use go_fiber_starter.Prelude.{ℕ, Bool, true, false, ◌||◌, Option, none, some, List, [], String}
use go_fiber_starter.Prelude.Text.{◌<>◌}
use text.Mathlib.Text.{◌==◌}

pub record Detail : Type 0 where
  pub field : String
  pub reason : String

-- `*fiber.Error`
pub record FiberError : Type 0 where
  pub code : ℕ
  pub message : String

-- One element of `validator.ValidationErrors`, by what the program asks of it.
pub record FieldError : Type 0 where
  pub field : String
  pub actual_tag : String

-- Errors that are compared by identity, each a package variable.
pub data Sentinel : Type 0 where
  record_not_found no_change not_exist invalid_token : Sentinel

mutual
  -- An error that is not nil. `wrap text e` is what `fmt.Errorf` makes with `%w`, and any foreign
  -- error with one `Unwrap`; `plain` has no cause. The text is that of the method `Error`.
  pub data GoError : Type 0 where
    app : AppError → GoError
    fiber : FiberError → GoError
    validation : List FieldError → String → GoError
    sentinel : Sentinel → String → GoError
    plain : String → GoError
    wrap : String → GoError → GoError

  pub data AppError : Type 0 where
    app_error : (code : String) (status : ℕ) (message : String) → List Detail → Cause → AppError

  -- The field `err`, which may be nil.
  pub data Cause : Type 0 where
    nil : Cause
    cause : GoError → Cause

abbrev pub code : AppError → String
code (app_error c s m d e) = c

abbrev pub status : AppError → ℕ
status (app_error c s m d e) = s

abbrev pub message : AppError → String
message (app_error c s m d e) = m

abbrev pub details : AppError → List Detail
details (app_error c s m d e) = d

abbrev pub unwrap : AppError → Cause
unwrap (app_error c s m d e) = e

unfoldable mutual
  -- The method `Error`, of any error and of an `AppError`.
  pub error_text : GoError → String
  error_text (app e) = app_text e
  error_text (fiber f) = f.message
  error_text (validation es text) = text
  error_text (sentinel s text) = text
  error_text (plain text) = text
  error_text (wrap text e) = text

  pub app_text : AppError → String
  app_text (app_error c s m d e) = m <> " (" <> c <> ")" <> cause_text e

  pub cause_text : Cause → String
  cause_text nil = ""
  cause_text (cause e) = ": " <> error_text e

-- fmt.Errorf(prefix + "%w", e)
abbrev pub errorf : String → GoError → GoError
errorf prefix e = wrap (prefix <> error_text e) e

-- The code by which `errors.Is` compares two `AppError`s (their method `Is`).
unfoldable pub app_is : AppError → AppError → Bool
app_is e target = code e == code target

unfoldable pub with_cause : AppError → GoError → AppError
with_cause (app_error c s m d old) e = app_error c s m d (cause e)

abbrev pub code_invalid_request : String
code_invalid_request = "INVALID_REQUEST"

abbrev pub code_not_found : String
code_not_found = "NOT_FOUND"

abbrev pub code_conflict : String
code_conflict = "CONFLICT"

abbrev pub code_internal : String
code_internal = "INTERNAL_ERROR"

abbrev pub code_unauthorized : String
code_unauthorized = "UNAUTHORIZED"

abbrev pub code_invalid_credential : String
code_invalid_credential = "INVALID_CREDENTIALS"

abbrev pub err_invalid_request : AppError
err_invalid_request = app_error code_invalid_request 422 "invalid request" [] nil

abbrev pub err_not_found : AppError
err_not_found = app_error code_not_found 404 "resource not found" [] nil

abbrev pub err_conflict : AppError
err_conflict = app_error code_conflict 409 "resource conflict" [] nil

abbrev pub err_internal : AppError
err_internal = app_error code_internal 500 "internal server error" [] nil

abbrev pub err_unauthorized : AppError
err_unauthorized = app_error code_unauthorized 401 "authentication required" [] nil

abbrev pub err_invalid_credential : AppError
err_invalid_credential = app_error code_invalid_credential 401 "invalid username or password" [] nil

unfoldable pub new_bad_request : String → List Detail → AppError
new_bad_request msg ds = app_error code_invalid_request 400 msg ds nil

unfoldable pub new_validation : List Detail → AppError
new_validation ds = app_error code_invalid_request 422 "validation failed" ds nil

-- errors.As at `**AppError`: the first `AppError` of the chain, which is the error itself or stands
-- below foreign wrappers.
unfoldable pub find_app : GoError → Option AppError
find_app (app e) = some e
find_app (wrap text e) = find_app e
find_app (fiber f) = none
find_app (validation es text) = none
find_app (sentinel s text) = none
find_app (plain text) = none

unfoldable mutual
  -- errors.As at `**fiber.Error`: it goes on through the cause of an `AppError`.
  pub find_fiber : GoError → Option FiberError
  find_fiber (app e) = find_fiber_app e
  find_fiber (fiber f) = some f
  find_fiber (validation es text) = none
  find_fiber (sentinel s text) = none
  find_fiber (plain text) = none
  find_fiber (wrap text e) = find_fiber e

  pub find_fiber_app : AppError → Option FiberError
  find_fiber_app (app_error c s m d e) = find_fiber_cause e

  pub find_fiber_cause : Cause → Option FiberError
  find_fiber_cause nil = none
  find_fiber_cause (cause e) = find_fiber e

unfoldable mutual
  -- errors.As at `*validator.ValidationErrors`
  pub find_validation : GoError → Option (List FieldError)
  find_validation (app e) = find_validation_app e
  find_validation (fiber f) = none
  find_validation (validation es text) = some es
  find_validation (sentinel s text) = none
  find_validation (plain text) = none
  find_validation (wrap text e) = find_validation e

  pub find_validation_app : AppError → Option (List FieldError)
  find_validation_app (app_error c s m d e) = find_validation_cause e

  pub find_validation_cause : Cause → Option (List FieldError)
  find_validation_cause nil = none
  find_validation_cause (cause e) = find_validation e

abbrev pub same_sentinel : Sentinel → Sentinel → Bool
same_sentinel record_not_found record_not_found = true
same_sentinel no_change no_change = true
same_sentinel not_exist not_exist = true
same_sentinel invalid_token invalid_token = true
same_sentinel _ _ = false

unfoldable mutual
  -- errors.Is(err, target), for a target that is one of the sentinels
  pub is_sentinel : Sentinel → GoError → Bool
  is_sentinel t (app e) = is_sentinel_app t e
  is_sentinel t (fiber f) = false
  is_sentinel t (validation es text) = false
  is_sentinel t (sentinel s text) = same_sentinel s t
  is_sentinel t (plain text) = false
  is_sentinel t (wrap text e) = is_sentinel t e

  pub is_sentinel_app : Sentinel → AppError → Bool
  is_sentinel_app t (app_error c s m d e) = is_sentinel_cause t e

  pub is_sentinel_cause : Sentinel → Cause → Bool
  is_sentinel_cause t nil = false
  is_sentinel_cause t (cause e) = is_sentinel t e

unfoldable mutual
  unfolding app_is

  -- errors.Is(err, target), for a target that is an `AppError`: each `AppError` of the chain is
  -- asked by its method `Is`, which covers identity.
  pub is_app : AppError → GoError → Bool
  is_app t (app e) = is_app_app t e
  is_app t (fiber f) = false
  is_app t (validation es text) = false
  is_app t (sentinel s text) = false
  is_app t (plain text) = false
  is_app t (wrap text e) = is_app t e

  pub is_app_app : AppError → AppError → Bool
  is_app_app t (app_error c s m d e) = app_is (app_error c s m d e) t || is_app_cause t e

  pub is_app_cause : AppError → Cause → Bool
  is_app_cause t nil = false
  is_app_cause t (cause e) = is_app t e

abbrev as_app_or : Option AppError → GoError → AppError
as_app_or (some e) err = e
as_app_or none err = with_cause err_internal err

unfoldable pub as_app_error : GoError → AppError
unfolding find_app with_cause
as_app_error err = as_app_or (find_app err) err

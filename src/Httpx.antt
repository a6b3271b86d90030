-- ===== src/Httpx.antt =====
-- internal/httpx/response.go: the common envelope of the API's responses. A response starts with
-- the status 200, which `c.JSON` does not change.
use go_fiber_starter.Prelude.{true, false, none, some}
use go_fiber_starter.Apperror.{AppError, code, message, details}
use go_fiber_starter.Pagination.{PageMeta}
use go_fiber_starter.Fiber.{Envelope, envelope, Response, empty}

module _ {A : Type 0} where
  unfoldable pub success : A → Response A
  success x = record {
    status = 200;
    body = envelope (record { success = true; payload = some x; error = none; meta = none });
  }

  unfoldable pub created : A → Response A
  created x = record {
    status = 201;
    body = envelope (record { success = true; payload = some x; error = none; meta = none });
  }

  unfoldable pub success_with_meta : A → PageMeta → Response A
  success_with_meta x m = record {
    status = 200;
    body = envelope (record { success = true; payload = some x; error = none; meta = some m });
  }

unfoldable pub no_content : (A : Type 0) → Response A
no_content A = record { status = 204; body = empty }

unfoldable pub error_body : (A : Type 0) → AppError → Envelope A
error_body A e = record {
  success = false;
  payload = none;
  error = some (record { code = code e; message = message e; details = details e });
  meta = none;
}

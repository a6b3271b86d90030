-- ===== src/Auth/Handler.antt =====
-- internal/modules/auth/handler.go and middleware.go.
pub mod Guard
use go_fiber_starter.Prelude.{
  Bool, Option, none, some, List, [], ◌∷◌, Result, ok, err, if◌then◌else◌, String,
}
use go_fiber_starter.Prelude.Text.{cut_prefix, is_blank}
use go_fiber_starter.Apperror.{GoError, app, err_unauthorized}
use go_fiber_starter.Fiber.{Identity, Request, Response, Handler}
use go_fiber_starter.Httpx.{success}
use go_fiber_starter.Validator.{Field, required, bind_error_to_app_error}
use go_fiber_starter.Payload.{Payload, LoginResponse, login}
use go_fiber_starter.Task.Model.{Time}
use go_fiber_starter.Task.Handler.{bound}
use go_fiber_starter.Auth.Service
use go_fiber_starter.Auth.Service.{Jwt, Service}

pub record LoginRequest : Type 0 where
  pub username : String
  pub password : String

-- The fields with tags of a LoginRequest.
abbrev pub login_fields : LoginRequest → List Field
login_fields r =
    record { name = "Username"; value = some r.username; rules = required ∷ [] }
    ∷ record { name = "Password"; value = some r.password; rules = required ∷ [] }
    ∷ []

-- What the handlers take from outside: the binding of the body, and two readings of the clock.
pub record Outside (S : Type 0) : Type 0 where
  pub login_request : Request → Result GoError LoginRequest
  pub now : S → Time
  pub now_again : S → Time

abbrev pub issued : Result GoError (String × Time) → Result GoError (Response Payload)
issued (ok (token, expires_at)) =
    ok (success (login (record { token = token; token_type = "Bearer"; expires_at = expires_at })))
issued (err e) = err e

abbrev not_blank : Option String → Option String
not_blank none = none
not_blank (some token) = if is_blank token then none else some token

-- The token of the header `Authorization`, or nothing where the guard refuses at once.
unfoldable pub bearer_token : String → Option String
unfolding cut_prefix is_blank
bearer_token header = not_blank (cut_prefix header "Bearer ")

module _ {S : Type 0} (jwt : Jwt) (svc : Service) (outside : Outside S) where
  abbrev login_with : S → Result GoError LoginRequest → Result GoError (Response Payload)
  login_with s (ok req) =
      issued (Service.issue jwt svc (outside.now s) (outside.now_again s) req.username req.password)
  login_with s (err e) = err (app (bind_error_to_app_error e))

  unfoldable pub login_handler : Handler S Payload
  unfolding success Service.issue bind_error_to_app_error
  login_handler c s = (login_with s (outside.login_request c), s)

  abbrev guarded :
      Handler S Payload
      → Request
      → S
      → Result GoError Identity
      → Result GoError (Response Payload) × S
  guarded next c s (ok id) = next (record c { identity = some id }) s
  guarded next c s (err e) = (err e, s)

  abbrev with_token :
      Handler S Payload → Request → S → Option String → Result GoError (Response Payload) × S
  with_token next c s none = (err (app err_unauthorized), s)
  with_token next c s (some token) = guarded next c s (Service.verify jwt svc (outside.now s) token)

  -- RequireAuth; `next` is what `c.Next()` runs.
  unfoldable pub require_auth : Handler S Payload → Handler S Payload
  unfolding bearer_token Service.verify
  require_auth next c s = with_token next c s (bearer_token c.authorization)

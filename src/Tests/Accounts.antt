-- ===== src/Tests/Accounts.antt =====
-- The theorems on logins and tokens, with the token library and the clock of the tests.
use go_fiber_starter.Prelude.{ℕ, ◌≡◌, refl, some, ok, err, arith, String}
use go_fiber_starter.Prelude.Text.{is_blank}
use go_fiber_starter.Apperror.{GoError, sentinel, invalid_token}
use go_fiber_starter.Fiber.{Handler}
use go_fiber_starter.Httpx.{success, no_content}
use go_fiber_starter.Payload.{Payload, login}
use go_fiber_starter.Auth.Service.{Service, demo_service, unauthorized_by, verify}
use go_fiber_starter.Auth.Handler.{login_handler, require_auth}
use go_fiber_starter.Auth.Handler.Guard.{require_auth-login}
use go_fiber_starter.Tests.{request, jwt, jwt-IsJwt, outside}

abbrev service : Service
service = demo_service "ada" "pw" "key" 3600

abbrev next : Handler ℕ Payload
next c s = (ok (no_content Payload), s)

abbrev password : String
password = "pw"

key_accepted : verify jwt service 60 "key" ≡ ok (record { username = "ada" })
unfolding verify demo_service
key_accepted = refl

abbrev refused : GoError
refused = unauthorized_by (sentinel invalid_token "refused")

other_refused : verify jwt service 60 "other" ≡ err refused
unfolding verify demo_service
other_refused = refl

logged_in :
    (login_handler jwt service outside (request "" "") 0).0
    ≡ ok (success (login (record { token = "key"; token_type = "Bearer"; expires_at = 3600 })))
unfolding login_handler demo_service
logged_in = refl

require_auth-login_example :
    require_auth jwt service outside next (request "1" "Bearer key") 60
    ≡ next (record (request "1" "Bearer key") { identity = some (record { username = "ada" }) }) 60
unfolding is_blank
require_auth-login_example =
    require_auth-login jwt jwt-IsJwt outside "ada" "pw" "key" 3600 next (request "" "")
      (request "1" "Bearer key") 0 60 (record { username = "ada"; password = "pw" }) "key" 3600 refl
      logged_in (λ h. cc) refl refl (omega arith)

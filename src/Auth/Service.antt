-- ===== src/Auth/Service.antt =====
-- internal/modules/auth/service.go. The signing and the checking of tokens are a library.
pub mod Tokens
use go_fiber_starter.Prelude.{
  ℕ, ◌+◌, ◌≤◌, ◌<◌, ◌≡◌, ◌≢◌, Bool, true, not, ◌||◌, Option, none, some, List, Result, ok, err,
  ◌>>=◌, if◌then◌else◌, String,
}
use go_fiber_starter.Prelude.Text.{◌<>◌}
use go_fiber_starter.Apperror.{
  GoError, app, sentinel, invalid_token, wrap, errorf, error_text, with_cause,
  err_invalid_credential, err_unauthorized,
}
use go_fiber_starter.Fiber.{Identity}
use go_fiber_starter.Task.Model.{Time}
use text.Mathlib.Text.{◌==◌}

-- The interface `Authenticator`.
pub record Authenticator : Type 0 where
  pub verify : (username password : String) → Result GoError Identity

-- The body of `demoAuthenticator.Verify`; a comparison in constant time is an equality of texts.
unfoldable pub demo_verify :
    (own_name own_password username password : String) → Result GoError Identity
demo_verify own_name own_password username password =
    let user_ok = username == own_name in
    let pass_ok = password == own_password in
    if not user_ok || not pass_ok
    then err (app err_invalid_credential)
    else ok (record { username = username })

-- `jwt.RegisteredClaims`, by the three members that the program sets and the subject that it reads.
pub record Claims : Type 0 where
  pub subject : String
  pub expires_at : Time
  pub issued_at : Time

-- The token library: HS256 signing, and a parser that takes HS256 alone and wants an expiry.
pub record Jwt : Type 0 where
  pub signed_string : (secret : String) → Claims → Result GoError String
  pub parse_with_claims : (secret : String) → (now : Time) → String → Result GoError Claims
  -- `jwt.NewNumericDate`
  pub numeric_date : Time → Time

pub record Service : Type 0 where
  pub auth : Authenticator
  pub secret : String
  pub ttl : ℕ

-- NewService with NewDemoAuthenticator
unfoldable pub demo_service : (own_name own_password secret : String) → ℕ → Service
unfolding demo_verify
demo_service own_name own_password secret ttl = record {
  auth = record { verify = demo_verify own_name own_password };
  secret = secret;
  ttl = ttl;
}

abbrev pub err_invalid_token : GoError
err_invalid_token = sentinel invalid_token "invalid token"

abbrev pub signed_error : Result GoError String → Result GoError String
signed_error (ok t) = ok t
signed_error (err e) = err (errorf "sign token: " e)

-- fmt.Errorf("%w: %v", errInvalidToken, err)
abbrev pub unauthorized_by : GoError → GoError
unauthorized_by e = app (
    with_cause err_unauthorized
      (wrap (error_text err_invalid_token <> ": " <> error_text e) err_invalid_token))

abbrev pub identity_of : Result GoError Claims → Result GoError Identity
identity_of (err e) = err (unauthorized_by e)
identity_of (ok claims) =
    if claims.subject == ""
    then err (app (with_cause err_unauthorized err_invalid_token))
    else ok (record { username = claims.subject })

module _ (jwt : Jwt) (svc : Service) where
  -- `now` is the reading of the clock; the two readings of `Issue` are `now` and `now'`.
  unfoldable pub issue :
      (now now' : Time) (username password : String) → Result GoError (String × Time)
  issue now now' username password = do
    id ← svc.auth.verify username password
    let expires_at = now + svc.ttl
    token ← signed_error (
        jwt.signed_string svc.secret (record {
          subject = id.username;
          expires_at = jwt.numeric_date expires_at;
          issued_at = jwt.numeric_date now';
        }))
    ok (token, expires_at)

  unfoldable pub verify : (now : Time) → String → Result GoError Identity
  unfolding with_cause error_text
  verify now token = identity_of (jwt.parse_with_claims svc.secret now token)

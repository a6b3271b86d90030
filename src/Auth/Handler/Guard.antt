-- ===== src/Auth/Handler/Guard.antt =====
-- The login and the guard of internal/modules/auth, from end to end.
use Prim.Native.String.{String}
use go_fiber_starter.Prelude.{
  ℕ, ◌<◌, ◌≡◌, ◌≢◌, refl, sym, ap, ◌∙◌, ◌⊎◌, inl, inr, false, some, List, Result, ok, err,
  Result-cases, Option-cases,
}
use go_fiber_starter.Prelude.Text.Prefix.{cut_prefix-append}
use go_fiber_starter.Prelude.Text.{is_blank, ◌<>◌}
use go_fiber_starter.Apperror.{GoError, find_fiber, as_app_error, err_unauthorized}
use go_fiber_starter.Fiber.{Identity, Request, Handler}
use go_fiber_starter.Httpx.{success}
use go_fiber_starter.Log.{Entry}
use go_fiber_starter.Router.ErrorHandler.{answer, error_handler, error_response}
use go_fiber_starter.Payload.{Payload, login}
use go_fiber_starter.Task.Model.{Time}
use go_fiber_starter.Auth.Service
use go_fiber_starter.Auth.Service.{Jwt, Service, demo_service, demo_verify}
use go_fiber_starter.Auth.Service.Tokens.{
  IsJwt, issue_ok, demo_verify_cases, verify-issue, verify_refused,
}
use go_fiber_starter.Auth.Handler.{
  LoginRequest, Outside, bearer_token, issued, login_handler, require_auth,
}

bearer_token-append :
    (token : String) → is_blank token ≡ false → bearer_token ("Bearer " <> token) ≡ some token
unfolding bearer_token
bearer_token-append token h = rw (cut_prefix-append "Bearer " token) (rw h refl)

module _ {S : Type 0} (jwt : Jwt) (svc : Service) (outside : Outside S) where
  -- The guard either runs what it protects, as the user of a token that the service accepts, or it
  -- refuses: then nothing has run, the state is as it was, and the client gets the one 401 response.
  pub require_auth_cases :
      (next : Handler S Payload) (c : Request) (s : S) (logs : List Entry)
      → ((token : String) × (id : Identity) × (bearer_token c.authorization ≡ some token)
          × (Service.verify jwt svc (outside.now s) token ≡ ok id)
          × (require_auth jwt svc outside next c s ≡ next (record c { identity = some id }) s))
        ⊎ (((require_auth jwt svc outside next c s).1 ≡ s)
            × ((answer Payload c (require_auth jwt svc outside next c s).0 logs).0
                ≡ error_response Payload 401 err_unauthorized))
  unfolding require_auth answer error_handler find_fiber as_app_error
  require_auth_cases next c s logs = elim (Option-cases (bearer_token c.authorization)) [
    | inl e ↦ inr (rw e (refl, refl))
    | inr (token, e) ↦ elim (Result-cases (Service.verify jwt svc (outside.now s) token)) [
      | inl (id, v) ↦ inl (token, id, e, v, rw (e, v) refl)
      | inr (x, v) ↦
          inr (rw (e, v) (refl, verify_refused jwt Payload svc (outside.now s) token x c logs v))
    ]
  ]

issued_ok :
    (r : Result GoError (String × Time)) (token : String) (expires : Time)
    → issued r
      ≡ ok (success (login (record { token = token; token_type = "Bearer"; expires_at = expires })))
    → r ≡ ok (token, expires)
unfolding success
issued_ok (ok (t, x)) token expires h =
    let same_token : t ≡ token = cc in
    let same_time : x ≡ expires = cc in λ i. ok (same_token i, same_time i)
issued_ok (err e) token expires h = cc

-- The credentials that the demo service takes are the configured ones.
demo_credentials :
    (n p u w : String) (e : Identity)
    → demo_verify n p u w ≡ ok e
    → (u ≡ n) × (e ≡ record { username = n })
demo_credentials n p u w e h = elim (demo_verify_cases n p u w) [
  | inl (a, b, v) ↦ (
    a,
    (let same : record { username = u } ≡ e = cc in sym same ∙ (λ i. record { username = a i })),
  )
  | inr (a, v) ↦ cc
]

module _ {S : Type 0} (jwt : Jwt) (laws : IsJwt jwt) (outside : Outside S) where
  -- After a login of the demo service that answers with a token, a request that carries this token
  -- in its header runs what the guard protects, as the configured user, before the token expires,
  -- if that user has a name and the token is not blank, and the token library keeps its laws.
  pub require_auth-login :
      (n p secret : String) (ttl : ℕ) (next : Handler S Payload) (c c' : Request) (s later : S)
      (req : LoginRequest) (token : String) (expires : Time)
      → outside.login_request c ≡ ok req
      → (login_handler jwt (demo_service n p secret ttl) outside c s).0
        ≡ ok (
            success (login (record { token = token; token_type = "Bearer"; expires_at = expires })))
      → n ≢ ""
      → is_blank token ≡ false
      → c'.authorization ≡ "Bearer " <> token
      → outside.now later < jwt.numeric_date expires
      → require_auth jwt (demo_service n p secret ttl) outside next c' later
        ≡ next (record c' { identity = some (record { username = n }) }) later
  unfolding require_auth login_handler demo_service
  require_auth-login n p secret ttl next c c' s later req token expires bound h named solid header
        fresh =
      let svc = demo_service n p secret ttl in
      let answered = rw bound at h in
      let got = issued_ok _ token expires answered in
      let (id, v, rest, signed) =
        issue_ok jwt laws svc (outside.now s) (outside.now_again s) req.username req.password token
          expires got in
      let (name, who) = demo_credentials n p req.username req.password id v in
      let accepted =
        verify-issue jwt laws svc (outside.now s) (outside.now_again s) (outside.now later)
          req.username req.password token expires id v
          (λ e. named (sym (ap (λ (x : Identity). x.username) who) ∙ e)) got fresh in
      rw header (rw (bearer_token-append token solid) (rw accepted (rw who refl)))

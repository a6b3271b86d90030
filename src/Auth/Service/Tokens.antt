-- ===== src/Auth/Service/Tokens.antt =====
-- Credentials and tokens of internal/modules/auth/service.go.
use go_fiber_starter.Prelude.{
  ◌+◌, ◌<◌, ◌≡◌, ◌≢◌, ◌⊎◌, inl, inr, refl, sym, ap, ◌∙◌, List, Result, ok, err, Result-cases,
  Bool-cases, String,
}
use go_fiber_starter.Apperror.{
  GoError, app, find_fiber, as_app_error, err_invalid_credential, err_unauthorized, with_cause,
}
use go_fiber_starter.Fiber.{Identity, Request}
use go_fiber_starter.Log.{Entry}
use go_fiber_starter.Router.ErrorHandler.{error_handler, error_response}
use go_fiber_starter.Task.Model.{Time}
use go_fiber_starter.Auth.Service.{
  demo_verify, Claims, Jwt, Service, identity_of, unauthorized_by, issue, verify, err_invalid_token,
}
use text.Mathlib.Text.{◌==◌}
use text.Mathlib.TextEquality.{eq_iff}

-- What the documentation of the token library says: a token that it signed is read back with its
-- claims before it expires and refused afterwards, and an accepted token has not expired.
pub record IsJwt (jwt : Jwt) : Type 0 where
  pub signed_accepted :
      (secret token : String) (claims : Claims) (now : Time)
      → jwt.signed_string secret claims ≡ ok token
      → now < claims.expires_at
      → jwt.parse_with_claims secret now token ≡ ok claims
  pub accepted_fresh :
      (secret token : String) (claims : Claims) (now : Time)
      → jwt.parse_with_claims secret now token ≡ ok claims
      → now < claims.expires_at

-- The demo authenticator accepts exactly the configured pair, as the user of that name, and every
-- other pair is refused by the one error that does not tell which half was wrong.
pub demo_verify_cases :
    (own_name own_password username password : String)
    → ((username ≡ own_name)
        × (password ≡ own_password)
        × (demo_verify own_name own_password username password
            ≡ ok (record { username = username })))
      ⊎ (((username ≢ own_name) ⊎ (password ≢ own_password))
          × (demo_verify own_name own_password username password
              ≡ err (app err_invalid_credential)))
unfolding demo_verify
demo_verify_cases n p u w = elim (Bool-cases (u == n)) [
  | inl a ↦ elim (Bool-cases (w == p)) [
    | inl b ↦ inl ((eq_iff u n).0 a, (eq_iff w p).0 b, rw (a, b) refl)
    | inr b ↦ inr (inr (λ e. (let t = (eq_iff w p).1 e in cc)), rw (a, b) refl)
  ]
  | inr a ↦ inr (inl (λ e. (let t = (eq_iff u n).1 e in cc)), rw a refl)
]

identity_named :
    (claims : Claims) (id : Identity)
    → claims.subject ≡ id.username
    → id.username ≢ ""
    → identity_of (ok claims) ≡ ok id
identity_named claims id same named = elim (Bool-cases (claims.subject == "")) [
  | inl y ↦ absurd (named (sym same ∙ (eq_iff claims.subject "").0 y))
  | inr n ↦ rw n (λ i. ok (record { username = same i }))
]

identity_refused :
    (A : Type 0) (c : Request) (logs : List Entry) (r : Result GoError Claims) (e : GoError)
    → identity_of r ≡ err e
    → (error_handler A c e logs).0 ≡ error_response A 401 err_unauthorized
unfolding error_handler with_cause find_fiber as_app_error
identity_refused A c logs (err x) e h = let same : unauthorized_by x ≡ e = cc in rw (← same) refl
identity_refused A c logs (ok claims) e h = elim (Bool-cases (claims.subject == "")) [
  | inl y ↦
      let k = rw y at h in
      let same : app (with_cause err_unauthorized err_invalid_token) ≡ e = cc in rw (← same) refl
  | inr n ↦ (let k = rw n at h in cc)
]

module _ (jwt : Jwt) where
  -- Every token that `Verify` refuses is answered by the same 401 response, whatever the reason.
  pub verify_refused :
      (A : Type 0) (svc : Service) (now : Time) (token : String) (e : GoError) (c : Request)
      (logs : List Entry)
      → verify jwt svc now token ≡ err e
      → (error_handler A c e logs).0 ≡ error_response A 401 err_unauthorized
  unfolding verify error_handler
  verify_refused A svc now token e c logs h =
      identity_refused A c logs (jwt.parse_with_claims svc.secret now token) e h

module _ (jwt : Jwt) (laws : IsJwt jwt) where
  -- What `Issue` has done when it returns a token.
  pub issue_ok :
      (svc : Service) (now now' : Time) (username password token : String) (expires : Time)
      → issue jwt svc now now' username password ≡ ok (token, expires)
      → (id : Identity) × (svc.auth.verify username password ≡ ok id)
        × (expires ≡ now + svc.ttl)
        × (jwt.signed_string svc.secret (record {
          subject = id.username;
          expires_at = jwt.numeric_date (now + svc.ttl);
          issued_at = jwt.numeric_date now';
        })
            ≡ ok token)
  unfolding issue
  issue_ok svc now now' username password token expires h =
      elim (Result-cases (svc.auth.verify username password)) [
        | inl (id, v) ↦
            let claims : Claims = record {
              subject = id.username;
              expires_at = jwt.numeric_date (now + svc.ttl);
              issued_at = jwt.numeric_date now';
            } in
            elim (Result-cases (jwt.signed_string svc.secret claims)) [
              | inl (t, s) ↦
                  let k = rw (v, s) at h in
                  let same : t ≡ token = cc in
                  let until : now + svc.ttl ≡ expires = cc in (id, v, sym until, s ∙ ap ok same)
              | inr (e, s) ↦ (let k = rw (v, s) at h in cc)
            ]
        | inr (e, v) ↦ (let k = rw v at h in cc)
      ]

  -- With a token library that keeps its laws: a token that was issued is accepted, as the user that
  -- logged in, as long as its expiry lies ahead, if that user has a name.
  pub verify-issue :
      (svc : Service) (now now' later : Time) (username password token : String) (expires : Time)
      (id : Identity)
      → svc.auth.verify username password ≡ ok id
      → id.username ≢ ""
      → issue jwt svc now now' username password ≡ ok (token, expires)
      → later < jwt.numeric_date expires
      → verify jwt svc later token ≡ ok id
  unfolding verify
  verify-issue svc now now' later username password token expires id v named h fresh =
      let (id', v', until, signed) = issue_ok svc now now' username password token expires h in
      let same : id' ≡ id = cc in
      let claims : Claims = record {
        subject = id'.username;
        expires_at = jwt.numeric_date (now + svc.ttl);
        issued_at = jwt.numeric_date now';
      } in
      let parsed = laws.signed_accepted svc.secret token claims later signed (rw until at fresh) in
      rw parsed (identity_named claims id (ap (λ (x : Identity). x.username) same) named)

  -- With a token library that keeps its laws: a token that is accepted was parsed by it with the
  -- secret of the service, has not expired, and names the user that it is accepted for, who has a
  -- name.
  pub verify_accepted :
      (svc : Service) (now : Time) (token : String) (id : Identity)
      → verify jwt svc now token ≡ ok id
      → (claims : Claims) × (jwt.parse_with_claims svc.secret now token ≡ ok claims)
        × (now < claims.expires_at)
        × (claims.subject ≡ id.username)
        × (id.username ≢ "")
  unfolding verify
  verify_accepted svc now token id h =
      elim (Result-cases (jwt.parse_with_claims svc.secret now token)) [
        | inl (claims, p) ↦ elim (Bool-cases (claims.subject == "")) [
          | inl y ↦ (let k = rw (p, y) at h in cc)
          | inr n ↦
              let k = rw (p, n) at h in
              let same : claims.subject ≡ id.username = cc in
              (
                claims,
                p,
                laws.accepted_fresh svc.secret token claims now p,
                same,
                (λ e. (let t = (eq_iff claims.subject "").1 (same ∙ e) in cc)),
              )
        ]
        | inr (e, p) ↦ (let k = rw p at h in cc)
      ]

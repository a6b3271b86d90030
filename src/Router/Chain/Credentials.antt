-- ===== src/Router/Chain/Credentials.antt =====
-- The login of internal/modules/auth, with the configuration of a production service.
use go_fiber_starter.Prelude.{◌≡◌, refl, sym, ◌∙◌, ◌⊎◌, inl, inr, true, List, ok, err, String}
use go_fiber_starter.Apperror.{app, err_invalid_credential, find_fiber, as_app_error}
use go_fiber_starter.Fiber.{Request}
use go_fiber_starter.Log.{Entry}
use go_fiber_starter.Config.{Config, env_prod, default_demo_username, default_demo_password}
use go_fiber_starter.Config.Rules.{IsValid, IsEnabled}
use go_fiber_starter.Payload.{Payload}
use go_fiber_starter.Router.ErrorHandler.{answer, error_handler, error_response}
use go_fiber_starter.Auth.Service
use go_fiber_starter.Auth.Service.{Jwt, demo_verify}
use go_fiber_starter.Auth.Service.Tokens.{demo_verify_cases}
use go_fiber_starter.Auth.Handler.{LoginRequest, Outside, login_handler}
use go_fiber_starter.Router.Chain.{auth_service}

auth_enabled-IsEnabled : (cfg : Config) → IsValid cfg → cfg.auth_enabled ≡ true → IsEnabled cfg
auth_enabled-IsEnabled cfg valid on = elim valid.auth [ inl off ↦ cc | inr rules ↦ rules ]

-- In production the demo service refuses both halves of the default credentials.
refuses_default :
    (cfg : Config) (name password : String)
    → IsValid cfg
    → cfg.env ≡ env_prod
    → cfg.auth_enabled ≡ true
    → (name ≡ default_demo_username) ⊎ (password ≡ default_demo_password)
    → demo_verify cfg.auth_demo_username cfg.auth_demo_password name password
      ≡ err (app err_invalid_credential)
refuses_default cfg name password valid prod on half =
    elim (demo_verify_cases cfg.auth_demo_username cfg.auth_demo_password name password) [
      | inr (other, refused) ↦ refused
      | inl (same_name, same_password, accepted) ↦
          elim (auth_enabled-IsEnabled cfg valid on).credentials [
            | inl not_prod ↦ absurd (not_prod prod)
            | inr (own_name, own_password) ↦ elim half [
              | inl default ↦ absurd (own_name (sym same_name ∙ default))
              | inr default ↦ absurd (own_password (sym same_password ∙ default))
            ]
          ]
    ]

module _ {S : Type 0} (jwt : Jwt) (outside : Outside S) (cfg : Config) where
  -- With a valid configuration of production that has authentication on, a login with the default
  -- name or the default password of the demo is answered by 401 and the code INVALID_CREDENTIALS,
  -- whatever the other half is.
  pub login_handler-default :
      (c : Request) (req : LoginRequest) (s : S) (logs : List Entry)
      → IsValid cfg
      → cfg.env ≡ env_prod
      → cfg.auth_enabled ≡ true
      → outside.login_request c ≡ ok req
      → (req.username ≡ default_demo_username) ⊎ (req.password ≡ default_demo_password)
      → (answer Payload c (login_handler jwt (auth_service cfg) outside c s).0 logs).0
        ≡ error_response Payload 401 err_invalid_credential
  unfolding login_handler answer error_handler find_fiber as_app_error auth_service Service.issue
      Service.demo_service
  login_handler-default c req s logs valid prod on bound half =
      rw bound (rw (refuses_default cfg req.username req.password valid prod on half) refl)

-- ===== src/Router/Life/Locked.antt =====
-- The state of a service that no client with a token reaches.
use go_fiber_starter.Prelude.{◌≡◌, refl, ◌∙◌, inl, inr, true, false, some, [], ok, String, Bool}
use go_fiber_starter.Fiber.{Request, Identity}
use go_fiber_starter.World.{World}
use go_fiber_starter.Config.{Config}
use go_fiber_starter.Task.Routes.{Operation, run}
use go_fiber_starter.Auth.Service
use go_fiber_starter.Auth.Handler.{bearer_token}
use go_fiber_starter.Auth.Handler.Guard.{require_auth_cases}
use go_fiber_starter.Router.Chain.{Parts, Endpoint, tasks, auth_service, task_handler}
use go_fiber_starter.Router.Life.{Reach}
use go_fiber_starter.Router.Life.Keeps.{Reach-keeps}

module _ {L S : Type 0} (parts : Parts L S) (cfg : Config) where
  -- No state makes the service accept the token of the request.
  abbrev pub IsStranger : Request → Type 0
  IsStranger c =
      (token : String) (id : Identity) (s : S)
      → bearer_token c.authorization ≡ some token
      → ¬ (Service.verify parts.jwt (auth_service cfg) (parts.outside.now s) token ≡ ok id)

  stranger_keeps :
      (b : Bool) (op : Operation) (c : Request) (s s' : S)
      → b ≡ true
      → IsStranger c
      → s' ≡ s
      → (task_handler parts cfg b op c s').1 ≡ s
  stranger_keeps true op c s s' on stranger same =
      elim (require_auth_cases parts.jwt (auth_service cfg) parts.outside
        (run parts.binder parts.repo op) c s' []) [
          | inl (token, id, bearer, accepted, ran) ↦ absurd (stranger token id s' bearer accepted)
          | inr (kept, refused) ↦ kept ∙ same
        ]
  stranger_keeps false op c s s' on stranger same = cc

  -- With authentication on, no sequence of requests changes what the handlers change, whatever the
  -- routes and the order, if no request to the task API has an accepted token and the exposition of
  -- the metrics changes nothing.
  pub Reach-IsStranger :
      (Sent : Endpoint → Request → Type 0) (w w' : World L S)
      → cfg.auth_enabled ≡ true
      → ((c : Request) (w : World L S) → (parts.metrics c w).1 ≡ w)
      → ((op : Operation) (c : Request) → Sent (tasks op) c → IsStranger c)
      → Reach parts cfg Sent w w'
      → w'.inner ≡ w.inner
  Reach-IsStranger Sent w w' on metrics_reads strangers r =
      Reach-keeps parts cfg Sent (λ s. s ≡ w.inner)
        (λ op c s sent same.
          stranger_keeps cfg.auth_enabled op c w.inner s on (strangers op c sent) same)
        metrics_reads w w' r refl

-- ===== src/Router/Chain/Probes.antt =====
-- The probes of internal/modules/health in the chain of internal/router/router.go.
use go_fiber_starter.Prelude.{◌≡◌, refl, ◌↔◌, inl, inr, ok, Result-cases, arith}
use go_fiber_starter.Fiber.{Request}
use go_fiber_starter.World.{World}
use go_fiber_starter.Config.{Config}
use go_fiber_starter.Health
use go_fiber_starter.Middleware.RequestLogger.{request_logger}
use go_fiber_starter.Middleware.Prometheus.{prometheus}
use go_fiber_starter.Router.ErrorHandler.{answer}
use go_fiber_starter.Router.Chain.{Parts, readyz, skip_rate_limit, global_limit, dispatch, serve}

module _ {L S : Type 0} (parts : Parts L S) (cfg : Config) where
  -- The probe of readiness, at its path, is answered by 200 exactly while the ping of the database
  -- succeeds.
  pub serve-readyz :
      (c : Request) (w : World L S)
      → c.path ≡ "/readyz"
      → ((serve parts cfg readyz c w).0.status ≡ 200) ↔ (parts.ping_db w.inner ≡ ok tt)
  unfolding serve global_limit dispatch prometheus request_logger answer skip_rate_limit
      Health.readyz Health.new_handler
  serve-readyz c w h = elim (Result-cases (parts.ping_db w.inner)) [
    | inl (tt, up) ↦ rw (h, up) ((λ e. refl), (λ e. refl))
    | inr (e, down) ↦ rw (h, down) ((λ e'. absurd (omega arith)), (λ e'. cc))
  ]

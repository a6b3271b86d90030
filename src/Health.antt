-- ===== src/Health.antt =====
-- internal/modules/health/handler.go: the probes.
use go_fiber_starter.Prelude.{ℕ, Result, ok, err, List, [], ◌∷◌, String, if◌then◌else◌}
use go_fiber_starter.Apperror.{GoError}
use go_fiber_starter.Fiber.{Member, text, members, Response, object, Handler}
use package.text.Mathlib.Text.{◌==◌}

-- `ping_db` is what the ping of the database returns in a state.
pub record Health (S : Type 0) : Type 0 where
  pub ping_db : S → Result GoError (Unit {0})
  pub commit : String

unfoldable pub new_handler : {S : Type 0} → (S → Result GoError (Unit {0})) → String → Health S
new_handler ping_db commit = record {
  ping_db = ping_db;
  commit = if commit == "" then "dev" else commit;
}

-- c.Status(status).JSON(fiber.Map{...})
abbrev pub map_response : (A : Type 0) → ℕ → List (String × Member) → Response A
map_response A status fields = record { status = status; body = object fields }

module _ {S A : Type 0} (h : Health S) where
  unfoldable pub livez : Handler S A
  livez c s = (ok (map_response A 200 (("status", text "ok") ∷ ("commit", text h.commit) ∷ [])), s)

  abbrev pub readiness : Result GoError (Unit {0}) → Response A
  readiness (ok u) =
      map_response A 200
        (("status", text "ready") ∷ ("checks", members (("database", "up") ∷ [])) ∷ [])
  readiness (err e) =
      map_response A 503
        (("status", text "unavailable") ∷ ("checks", members (("database", "down") ∷ [])) ∷ [])

  unfoldable pub readyz : Handler S A
  readyz c s = (ok (readiness (h.ping_db s)), s)

-- ===== src/Validator/Classes.antt =====
-- The two classes of bind failures of internal/validator/bind.go.
use go_fiber_starter.Prelude.{◌≡◌, refl, none, some, List, map, ◌⊎◌, inl, inr, Option-cases, []}
use go_fiber_starter.Apperror.{
  GoError, FieldError, code, status, details, unwrap, cause, find_validation, code_invalid_request,
}
use go_fiber_starter.Validator.{bind_error_to_app_error, to_detail}

-- A bind failure that holds tag violations becomes a 422 with one detail for each violation, in
-- their order, and every other one a 400 with no detail. The code is INVALID_REQUEST in both
-- cases, and the cause is kept.
pub bind_error_classes :
    (err : GoError)
    → (((es : List FieldError) × (find_validation err ≡ some es)
          × (status (bind_error_to_app_error err) ≡ 422)
          × (details (bind_error_to_app_error err) ≡ map to_detail es))
        ⊎ ((find_validation err ≡ none)
            × (status (bind_error_to_app_error err) ≡ 400)
            × (details (bind_error_to_app_error err) ≡ [])))
      × (code (bind_error_to_app_error err) ≡ code_invalid_request)
      × (unwrap (bind_error_to_app_error err) ≡ cause err)
unfolding bind_error_to_app_error
bind_error_classes err = elim (Option-cases (find_validation err)) [
  | inl e ↦ rw e (inr (refl, refl, refl), refl, refl)
  | inr (es, e) ↦ rw e (inl (es, refl, refl, refl), refl, refl)
]

-- ===== src/Task/Service/Errors.antt =====
-- How the operations of internal/modules/task/service.go fail.
use go_fiber_starter.Prelude.{
  ℕ, ◌≡◌, refl, ap, ◌⊎◌, inl, inr, none, some, List, err, Result-cases, String,
}
use go_fiber_starter.Prelude.Int.{ℤ}
use go_fiber_starter.Apperror.{
  GoError, app, wrap, errorf, is_app, err_not_found, find_app, find_fiber,
}
use go_fiber_starter.Pagination.{new_page_query}
use go_fiber_starter.Pagination.Bounds.{new_page_meta-total}
use go_fiber_starter.Task.Model.{Task, err_task_not_found, find_row}
use go_fiber_starter.Task.Dto.{CreateRequest, UpdateRequest}
use go_fiber_starter.Task.Gorm.{IsForeign}
use go_fiber_starter.Task.Repository.{Repository}
use go_fiber_starter.Task.Repository.Contract.{IsRepository}
use go_fiber_starter.Task.Service.{
  new_task, mutate, create, get, list, update, delete, normalize_error,
}
use go_fiber_starter.Task.Service.Outcome.{both, answered_err, deleted_error_err}

-- The error of a missing task, as the error handler reads it.
pub record IsMissing (e : GoError) : Type 0 where
  pub found : find_app e ≡ some err_task_not_found
  pub no_fiber : find_fiber e ≡ none

IsForeign-errorf : (text : String) (e : GoError) → IsForeign e → IsForeign (wrap text e)
unfolding find_app find_fiber is_app
IsForeign-errorf text e h = record { no_app = h.no_app; no_fiber = h.no_fiber; no_code = h.no_code }

pub IsMissing-wrap : (text : String) → IsMissing (wrap text (app err_task_not_found))
unfolding find_app find_fiber
IsMissing-wrap text = record { found = refl; no_fiber = refl }

pub IsMissing-app : IsMissing (app err_task_not_found)
unfolding find_app find_fiber
IsMissing-app = record { found = refl; no_fiber = refl }

-- A repository's error of a missing row, by either of its codes, becomes that of a missing task.
pub normalize-not_found :
    (prefix : String) → normalize_error prefix (app err_not_found) ≡ app err_task_not_found
unfolding is_app
normalize-not_found prefix = refl

pub normalize-task_not_found :
    (prefix : String)
    → normalize_error prefix (app err_task_not_found) ≡ errorf prefix (app err_task_not_found)
unfolding is_app
normalize-task_not_found prefix = refl

IsForeign-normalize :
    (prefix : String) (e : GoError) → IsForeign e → IsForeign (normalize_error prefix e)
IsForeign-normalize prefix e h = rw (h.no_code err_not_found) (IsForeign-errorf _ e h)

module _ {S : Type 0} (repo : Repository S) (rows : S → List Task)
    (laws : IsRepository rows repo) where
  pub create_fault :
      (req : CreateRequest) (e : GoError) (s s' : S)
      → create repo req s ≡ (err e, s')
      → (rows s' ≡ rows s) × IsForeign e
  unfolding create
  create_fault req e s s' h =
      let (x, failed, same) = answered_err _ _ e (ap (λ p. p.0) h) in
      let (kept, foreign) = laws.create_err (new_task req) x s s' (both failed (ap (λ p. p.1) h)) in
      (kept, rw same (IsForeign-errorf _ x foreign))

  pub get_fault :
      (i : ℕ) (e : GoError) (s : S)
      → get repo i s ≡ err e
      → (IsMissing e × (find_row i (rows s) ≡ none)) ⊎ IsForeign e
  unfolding get
  get_fault i e s h =
      let (x, failed, same) = answered_err _ _ e h in
      elim (laws.find_err i x s failed) [
        | inl (missing, gone) ↦ inl (rw (same, missing) (IsMissing-wrap _), gone)
        | inr foreign ↦ inr (rw same (IsForeign-errorf _ x foreign))
      ]

  pub update_fault :
      (i : ℕ) (req : UpdateRequest) (e : GoError) (s s' : S)
      → update repo i req s ≡ (err e, s')
      → (rows s' ≡ rows s) × ((IsMissing e × (find_row i (rows s) ≡ none)) ⊎ IsForeign e)
  unfolding update
  update_fault i req e s s' h =
      let (x, failed, same) = answered_err _ _ e (ap (λ p. p.0) h) in
      let (kept, why) = laws.update_err i (mutate req) x s s' (both failed (ap (λ p. p.1) h)) in
      (
        kept,
        elim why [
          | inl (missing, gone) ↦ inl (rw (same, missing, normalize-not_found) IsMissing-app, gone)
          | inr foreign ↦ inr (rw same (IsForeign-normalize _ x foreign))
        ],
      )

  pub delete_fault :
      (i : ℕ) (e : GoError) (s s' : S)
      → delete repo i s ≡ (err e, s')
      → (rows s' ≡ rows s) × ((IsMissing e × (find_row i (rows s) ≡ none)) ⊎ IsForeign e)
  unfolding delete
  delete_fault i e s s' h =
      let (x, failed, same) = deleted_error_err i _ e (ap (λ p. p.0) h) in
      let (kept, why) = laws.delete_err i x s s' (both failed (ap (λ p. p.1) h)) in
      (
        kept,
        elim why [
          | inl (missing, gone) ↦
              inl (rw (same, missing, normalize-task_not_found) (IsMissing-wrap _), gone)
          | inr foreign ↦ inr (rw same (IsForeign-normalize _ x foreign))
        ],
      )

  -- `List` fails only with the repository: a panic by a zero limit is ruled out.
  pub list_fault :
      (page limit : ℤ) (e : GoError) (s : S) → list repo page limit s ≡ err e → IsForeign e
  unfolding list
  list_fault page limit e s h = elim (Result-cases (repo.list (new_page_query page limit) s)) [
    | inl ((ts, n), listed) ↦
        let (meta, fine) = new_page_meta-total page limit n in
        let bad = rw (listed, fine) at h in cc
    | inr (x, failed) ↦
        let k = rw failed at h in
        let same : errorf "list tasks: " x ≡ e = cc in
        rw (← same) (IsForeign-errorf _ x (laws.list_err (new_page_query page limit) x s failed))
  ]

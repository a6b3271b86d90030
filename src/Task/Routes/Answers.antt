-- ===== src/Task/Routes/Answers.antt =====
-- What the client of the task API is told: a missing task, and an error of the database.
use go_fiber_starter.Prelude.{ℕ, ◌≡◌, refl, ap, ◌∙◌, none, List, ok, err}
use go_fiber_starter.Apperror.{GoError, app, errorf, as_app_error, err_internal}
use go_fiber_starter.Fiber.{Request}
use go_fiber_starter.Log.{Entry}
use go_fiber_starter.Payload.{Payload}
use go_fiber_starter.Router.ErrorHandler.{answer, error_handler, error_response}
use go_fiber_starter.Task.Model.{Task, err_task_not_found, find_row}
use go_fiber_starter.Task.Dto.{UpdateRequest}
use go_fiber_starter.Task.Gorm.{IsForeign}
use go_fiber_starter.Task.Repository.{Repository}
use go_fiber_starter.Task.Repository.Contract.{IsAvailable}
use go_fiber_starter.Task.Service
use go_fiber_starter.Task.Service.{answered, task_prefix, normalize_error, deleted_error, mutate}
use go_fiber_starter.Task.Service.Errors.{
  IsMissing, IsMissing-wrap, IsMissing-app, normalize-not_found, normalize-task_not_found,
}
use go_fiber_starter.Task.Handler.{Binder, parse_id}
use go_fiber_starter.Task.Routes.{Operation, create, list, get, update, delete, run}

module _ (A : Type 0) (c : Request) (e : GoError) (logs : List Entry) where
  -- The error of a missing task is answered by 404 and the code TASK_NOT_FOUND.
  pub answer-IsMissing :
      IsMissing e → (error_handler A c e logs).0 ≡ error_response A 404 err_task_not_found
  unfolding error_handler as_app_error
  answer-IsMissing h = rw (h.no_fiber) (rw (h.found) refl)

  -- An error of the database is answered by the fixed response 500.
  pub answer-IsForeign :
      IsForeign e → (error_handler A c e logs).0 ≡ error_response A 500 err_internal
  unfolding error_handler as_app_error
  answer-IsForeign h = rw (h.no_fiber) (rw (h.no_app) refl)

-- The request names the task `i`: its path parameter is that number, and its body binds.
abbrev pub Addresses : Binder → Operation → Request → ℕ → Type 0
Addresses binder create c i = ⊥
Addresses binder list c i = ⊥
Addresses binder get c i = parse_id c.param_id ≡ ok i
Addresses binder update c i =
    (req : UpdateRequest) × (parse_id c.param_id ≡ ok i) × (binder.update_request c ≡ ok req)
Addresses binder delete c i = parse_id c.param_id ≡ ok i

module _ {S : Type 0} (binder : Binder) (repo : Repository S) (rows : S → List Task) where
  get_missing :
      (i : ℕ) (s : S)
      → IsAvailable rows repo s
      → find_row i (rows s) ≡ none
      → Service.get repo i s ≡ err (errorf (task_prefix "get" i) (app err_task_not_found))
  unfolding Service.get
  get_missing i s up h = ap (answered (errorf (task_prefix "get" i))) (up.find_missing i h)

  update_missing :
      (i : ℕ) (req : UpdateRequest) (s : S)
      → IsAvailable rows repo s
      → find_row i (rows s) ≡ none
      → (Service.update repo i req s).0 ≡ err (app err_task_not_found)
  unfolding Service.update
  update_missing i req s up h =
      ap (answered (normalize_error (task_prefix "update" i))) (up.update_missing i (mutate req) h)
      ∙ ap err (normalize-not_found _)

  delete_missing :
      (i : ℕ) (s : S)
      → IsAvailable rows repo s
      → find_row i (rows s) ≡ none
      → (Service.delete repo i s).0 ≡ err (errorf (task_prefix "delete" i) (app err_task_not_found))
  unfolding Service.delete
  delete_missing i s up h =
      ap (deleted_error i) (up.delete_missing i h) ∙ ap err (normalize-task_not_found _)

  -- A request to read, change or delete a task that is not there is answered by 404 and the code
  -- TASK_NOT_FOUND, while the repository is available.
  pub run-missing :
      (op : Operation) (c : Request) (i : ℕ) (s : S) (logs : List Entry)
      → IsAvailable rows repo s
      → Addresses binder op c i
      → find_row i (rows s) ≡ none
      → (answer Payload c (run binder repo op c s).0 logs).0
        ≡ error_response Payload 404 err_task_not_found
  unfolding run answer
  run-missing create c i s logs up a h = absurd a
  run-missing list c i s logs up a h = absurd a
  run-missing get c i s logs up a h =
      rw a (rw (get_missing i s up h) (answer-IsMissing Payload c _ logs (IsMissing-wrap _)))
  run-missing update c i s logs up (req, a, b) h =
      rw (a, b) (rw (update_missing i req s up h) (answer-IsMissing Payload c _ logs IsMissing-app))
  run-missing delete c i s logs up a h =
      rw a (rw (delete_missing i s up h) (answer-IsMissing Payload c _ logs (IsMissing-wrap _)))

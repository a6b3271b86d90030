-- ===== src/Task/Service.antt =====
-- internal/modules/task/service.go, over any repository.
pub mod Outcome
pub mod Errors
pub mod Lookup
pub mod Listing
use go_fiber_starter.Prelude.{
  ℕ, Bool, true, false, Option, none, some, List, Result, ok, err, ◌>>=◌, if◌then◌else◌, String,
}
use go_fiber_starter.Prelude.Int.{ℤ}
use go_fiber_starter.Prelude.Text.{◌<>◌, decimal}
use go_fiber_starter.Apperror.{GoError, app, errorf, is_app, err_not_found}
use go_fiber_starter.Pagination.{PageQuery, PageMeta, new_page_query, new_page_meta}
use go_fiber_starter.Task.Model.{Time, Task, err_task_not_found}
use go_fiber_starter.Task.Dto.{
  CreateRequest, UpdateRequest, NullableTime, Response, to_response, to_responses,
}
use go_fiber_starter.Task.Repository.{Repository}

-- The task of a request, with the zero values of the other fields.
unfoldable pub new_task : CreateRequest → Task
new_task req = record {
  id = 0;
  title = req.title;
  done = false;
  due_date = req.due_date;
  created_at = 0;
  updated_at = 0;
  deleted_at = none;
}

abbrev pub field_or {ℓ} : {A : Type ℓ} → Option A → A → A
field_or none old = old
field_or (some new) old = new

abbrev pub due_or : NullableTime → Option Time → Option Time
due_or n old = if n.set then (if n.null then none else some n.value) else old

-- The closure `mutate` of `Update`.
unfoldable pub mutate : UpdateRequest → Task → Task
mutate req t = record t {
  title = field_or req.title t.title;
  done = field_or req.done t.done;
  due_date = due_or req.due_date t.due_date;
}

-- The error of `Update` and `Delete`: not found by the general code, or else wrapped.
abbrev pub normalize_error : String → GoError → GoError
normalize_error prefix e =
    if is_app err_not_found e then app err_task_not_found else errorf prefix e

abbrev pub answered : (GoError → GoError) → Result GoError Task → Result GoError Response
answered f (ok t) = ok (to_response t)
answered f (err e) = err (f e)

abbrev pub task_prefix : String → ℕ → String
task_prefix verb i = verb <> " task " <> decimal i <> ": "

abbrev pub listed_error : {A : Type 0} → Result GoError A → Result GoError A
listed_error (ok a) = ok a
listed_error (err e) = err (errorf "list tasks: " e)

abbrev pub deleted_error : ℕ → Result GoError (Unit {0}) → Result GoError (Unit {0})
deleted_error i (ok u) = ok u
deleted_error i (err e) = err (normalize_error (task_prefix "delete" i) e)

module _ {S : Type 0} (repo : Repository S) where
  unfoldable pub create : CreateRequest → S → Result GoError Response × S
  unfolding new_task to_response
  create req s =
      let (r, s') = repo.create (new_task req) s in (answered (errorf "create task: ") r, s')

  unfoldable pub get : ℕ → S → Result GoError Response
  unfolding to_response
  get i s = answered (errorf (task_prefix "get" i)) (repo.find_by_id i s)

  unfoldable pub list : (page limit : ℤ) → S → Result GoError (List Response × PageMeta)
  unfolding to_responses
  list page limit s = do
    let q = new_page_query page limit
    (tasks, total) ← listed_error (repo.list q s)
    meta ← new_page_meta q total
    ok (to_responses tasks, meta)

  unfoldable pub update : ℕ → UpdateRequest → S → Result GoError Response × S
  unfolding mutate to_response
  update i req s =
      let (r, s') = repo.update i (mutate req) s in
      (answered (normalize_error (task_prefix "update" i)) r, s')

  unfoldable pub delete : ℕ → S → Result GoError (Unit {0}) × S
  delete i s = let (r, s') = repo.delete i s in (deleted_error i r, s')

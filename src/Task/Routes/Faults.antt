-- ===== src/Task/Routes/Faults.antt =====
-- How a request to the task API fails, and what the client is told.
use go_fiber_starter.Prelude.{
  ◌≡◌, refl, ap, sym, ◌∙◌, List, Result, ok, err, Result-cases, arith, inl, inr, ◌⊎◌,
}
use go_fiber_starter.Apperror.{GoError, app}
use go_fiber_starter.Fiber.{Request, Response}
use go_fiber_starter.Payload.{Payload}
use go_fiber_starter.Validator.{bind_error_to_app_error}
use go_fiber_starter.Task.Model.{Task}
use go_fiber_starter.Task.Dto
use go_fiber_starter.Task.Dto.{CreateRequest, UpdateRequest}
use go_fiber_starter.Task.Gorm.{IsForeign}
use go_fiber_starter.Task.Repository.{Repository}
use go_fiber_starter.Task.Repository.Contract.{IsRepository}
use go_fiber_starter.Task.Service.Outcome.{both}
use go_fiber_starter.Task.Service.Errors.{
  IsMissing, create_fault, get_fault, list_fault, update_fault, delete_fault,
}
use go_fiber_starter.Task.Handler.{
  Binder, parse_id, bad_id, created_task, one_task, nothing, page_of_tasks,
}
use go_fiber_starter.Task.Routes.{Operation, create, list, get, update, delete, run}

-- The four ways in which a handler fails: a path parameter that is no positive number, a body that
-- does not bind, a task that is not there, and an error of the database.
pub data Fault (binder : Binder) (c : Request) (e : GoError) : Type 0 where
  bad_path : parse_id c.param_id ≡ err bad_id → e ≡ bad_id → Fault binder c e
  bad_body :
      (x : GoError)
      → (binder.create_request c ≡ err x) ⊎ (binder.update_request c ≡ err x)
      → e ≡ app (bind_error_to_app_error x)
      → Fault binder c e
  missing : IsMissing e → Fault binder c e
  foreign : IsForeign e → Fault binder c e

created_task_err :
    (r : Result GoError Dto.Response) (e : GoError) → created_task r ≡ err e → r ≡ err e
created_task_err (ok a) e h = cc
created_task_err (err x) e h = cc

one_task_err : (r : Result GoError Dto.Response) (e : GoError) → one_task r ≡ err e → r ≡ err e
one_task_err (ok a) e h = cc
one_task_err (err x) e h = cc

nothing_err : (r : Result GoError (Unit {0})) (e : GoError) → nothing r ≡ err e → r ≡ err e
nothing_err (ok a) e h = cc
nothing_err (err x) e h = cc

page_err :
    (r : Result GoError (List Dto.Response × _)) (e : GoError) → page_of_tasks r ≡ err e → r ≡ err e
page_err (ok (a, m)) e h = cc
page_err (err x) e h = cc

pub parse_id_err : (raw : _) (x : GoError) → parse_id raw ≡ err x → x ≡ bad_id
unfolding parse_id
parse_id_err raw x h = ground arith

to_Fault :
    {P : Type 0} {binder : Binder} {c : Request} {e : GoError}
    → ((IsMissing e × P) ⊎ IsForeign e)
    → Fault binder c e
to_Fault (inl (m, p)) = missing m
to_Fault (inr f) = foreign f

bad_path_of :
    (binder : Binder) (c : Request) (x e : GoError)
    → parse_id c.param_id ≡ err x
    → ◌≡◌ {A = Result GoError (Response Payload)} (err x) (err e)
    → Fault binder c e
bad_path_of binder c x e p h =
    let bad : x ≡ bad_id = parse_id_err c.param_id x p in
    bad_path (p ∙ ap err bad) (let same : x ≡ e = cc in sym same ∙ bad)

bad_body_of :
    (binder : Binder) (c : Request) (x e : GoError)
    → (binder.create_request c ≡ err x) ⊎ (binder.update_request c ≡ err x)
    → ◌≡◌ {A = Result GoError (Response Payload)} (err (app (bind_error_to_app_error x))) (err e)
    → Fault binder c e
bad_body_of binder c x e b h = bad_body x b (cc)

module _ {S : Type 0} (binder : Binder) (repo : Repository S) (rows : S → List Task)
    (laws : IsRepository rows repo) where
  -- A request to the task API that ends in an error, over a repository that keeps the contract, has
  -- left the rows of the table as they were, and has failed by a bad path parameter, by a body that
  -- does not bind, by a missing task, or by an error of the database.
  pub run-Fault :
      (op : Operation) (c : Request) (e : GoError) (s : S)
      → (run binder repo op c s).0 ≡ err e
      → (rows (run binder repo op c s).1 ≡ rows s) × Fault binder c e
  unfolding run
  run-Fault create c e s h = elim (Result-cases (binder.create_request c)) [
    | inl (req, b) ↦
        let failed = created_task_err _ e (rw b at h) in
        let (kept, why) = create_fault repo rows laws req e s _ (both failed refl) in
        rw b (kept, foreign why)
    | inr (x, b) ↦ rw b (refl, bad_body_of binder c x e (inl b) (rw b at h))
  ]
  run-Fault list c e s h = (refl, foreign (list_fault repo rows laws _ _ e s (page_err _ e h)))
  run-Fault get c e s h = elim (Result-cases (parse_id c.param_id)) [
    | inl (i, p) ↦
        rw p (refl, to_Fault (get_fault repo rows laws i e s (one_task_err _ e (rw p at h))))
    | inr (x, p) ↦ rw p (refl, bad_path_of binder c x e p (rw p at h))
  ]
  run-Fault update c e s h = elim (Result-cases (parse_id c.param_id)) [
    | inl (i, p) ↦ elim (Result-cases (binder.update_request c)) [
      | inl (req, b) ↦
          let failed = one_task_err _ e (rw (p, b) at h) in
          let (kept, why) = update_fault repo rows laws i req e s _ (both failed refl) in
          rw (p, b) (kept, to_Fault why)
      | inr (x, b) ↦ rw (p, b) (refl, bad_body_of binder c x e (inr b) (rw (p, b) at h))
    ]
    | inr (x, p) ↦ rw p (refl, bad_path_of binder c x e p (rw p at h))
  ]
  run-Fault delete c e s h = elim (Result-cases (parse_id c.param_id)) [
    | inl (i, p) ↦
        let failed = nothing_err _ e (rw p at h) in
        let (kept, why) = delete_fault repo rows laws i e s _ (both failed refl) in
        rw p (kept, to_Fault why)
    | inr (x, p) ↦ rw p (refl, bad_path_of binder c x e p (rw p at h))
  ]

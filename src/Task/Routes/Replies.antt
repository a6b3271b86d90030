-- ===== src/Task/Routes/Replies.antt =====
-- The replies of the task API.
use go_fiber_starter.Prelude.{
  ap, ◌∙◌, ◌<◌, ◌≡◌, refl, arith, ◌⊎◌, ℕ, inl, inr, none, some, List, [], err, String, Option-cases,
}
use go_fiber_starter.Apperror.{
  new_bad_request, find_app, GoError, AppError, Detail, app, code, status, message, details,
  find_fiber, code_invalid_request, find_validation,
}
use go_fiber_starter.Pagination.{PageMeta}
use go_fiber_starter.Fiber.{Request, Response}
use go_fiber_starter.Httpx.{error_body}
use go_fiber_starter.Log.{Entry}
use go_fiber_starter.Payload.{Payload, task, tasks}
use go_fiber_starter.Router.ErrorHandler.{answer, error_handler}
use go_fiber_starter.Validator.{bind_error_to_app_error}
use go_fiber_starter.Validator.Classes.{bind_error_classes}
use go_fiber_starter.Router.Observed.{error_handler_rejects}
use go_fiber_starter.Task.Model.{Task}
use go_fiber_starter.Task.Model.Rows.{IsDescending}
use go_fiber_starter.Task.Dto
use go_fiber_starter.Task.Routes.Plain.{Shows, ShowsAll, data_reply, empty_reply, error_reply}
use go_fiber_starter.Task.Repository.{Repository}
use go_fiber_starter.Task.Repository.Contract.{IsRepository}
use go_fiber_starter.Task.Handler.{Binder, bad_id}
use go_fiber_starter.Task.Routes.{Operation, create, list, get, update, delete, run}
use go_fiber_starter.Task.Routes.Answers.{answer-IsMissing, answer-IsForeign}
use go_fiber_starter.Task.Routes.Faults.{Fault, bad_path, bad_body, missing, foreign}
use go_fiber_starter.Task.Routes.Spec.{refused, added, shown, listed, changed, removed}
use go_fiber_starter.Task.Routes.Spec.Refines.{run-Spec}

-- The envelopes that each operation sends, with their statuses.
pub data Reply (op : Operation) (x : Response Payload) : Type 0 where
  one :
      (t : Task) (a : Dto.Response)
      → (op ≡ get) ⊎ (op ≡ update)
      → Shows t a
      → x ≡ data_reply 200 (task a) none
      → Reply op x
  made :
      (t : Task) (a : Dto.Response)
      → op ≡ create
      → Shows t a
      → x ≡ data_reply 201 (task a) none
      → Reply op x
  page :
      (ts : List Task) (answers : List Dto.Response) (meta : PageMeta)
      → op ≡ list
      → ShowsAll ts answers
      → x ≡ data_reply 200 (tasks answers) (some meta)
      → Reply op x
  gone : op ≡ delete → x ≡ empty_reply → Reply op x
  invalid :
      (status : ℕ) (message : String) (details : List Detail)
      → (status ≡ 400) ⊎ (status ≡ 422)
      → x ≡ error_reply status "INVALID_REQUEST" message details
      → Reply op x
  not_there : x ≡ error_reply 404 "TASK_NOT_FOUND" "task not found" [] → Reply op x
  failed : x ≡ error_reply 500 "INTERNAL_ERROR" "internal server error" [] → Reply op x

invalid-Reply :
    (op : Operation) (c : Request) (e : AppError) (logs : List Entry)
    → find_fiber (app e) ≡ none
    → (status e ≡ 400) ⊎ (status e ≡ 422)
    → code e ≡ code_invalid_request
    → Reply op (error_handler Payload c (app e) logs).0
unfolding find_app error_body
invalid-Reply op c e logs clean sort coded =
    let small : status e < 500 = (elim sort [
      | inl h ↦ omega (arith, h)
      | inr h ↦ omega (arith, h)
    ]) in
    invalid (status e) (message e) (details e) sort (
      error_handler_rejects Payload c (app e) e logs refl clean small
      ∙ ap (λ k. error_reply (status e) k (message e) (details e)) coded)

bad_id-Reply :
    (op : Operation) (c : Request) (logs : List Entry)
    → Reply op (error_handler Payload c bad_id logs).0
unfolding find_fiber new_bad_request
bad_id-Reply op c logs = invalid-Reply op c _ logs refl (inl refl) refl

pub find_fiber-bind :
    (x : GoError) → find_fiber x ≡ none → find_fiber (app (bind_error_to_app_error x)) ≡ none
unfolding find_fiber bind_error_to_app_error
find_fiber-bind x clean = elim (Option-cases (find_validation x)) [
  | inl v ↦ rw v clean
  | inr (es, v) ↦ rw v clean
]

bad_body-Reply :
    (op : Operation) (c : Request) (x : GoError) (logs : List Entry)
    → find_fiber x ≡ none
    → Reply op (error_handler Payload c (app (bind_error_to_app_error x)) logs).0
bad_body-Reply op c x logs clean =
    let (sort, coded, caused) = bind_error_classes x in
    invalid-Reply op c (bind_error_to_app_error x) logs (find_fiber-bind x clean)
      (elim sort [
        | inl (es, v, unprocessable, named) ↦ inr unprocessable
        | inr (v, bad, empty) ↦ inl bad
      ])
      coded

-- The binder reports no error of the framework.
pub record BindsClean (binder : Binder) : Type 0 where
  pub create_clean :
      (c : Request) (x : GoError) → binder.create_request c ≡ err x → find_fiber x ≡ none
  pub update_clean :
      (c : Request) (x : GoError) → binder.update_request c ≡ err x → find_fiber x ≡ none

Fault-Reply :
    (binder : Binder) (clean : BindsClean binder) (op : Operation) (c : Request) (e : GoError)
    (logs : List Entry)
    → Fault binder c e
    → Reply op (error_handler Payload c e logs).0
unfolding error_body
Fault-Reply binder clean op c e logs (bad_path p same) = rw same (bad_id-Reply op c logs)
Fault-Reply binder clean op c e logs (bad_body x (inl b) same) =
    rw same (bad_body-Reply op c x logs (clean.create_clean c x b))
Fault-Reply binder clean op c e logs (bad_body x (inr b) same) =
    rw same (bad_body-Reply op c x logs (clean.update_clean c x b))
Fault-Reply binder clean op c e logs (missing m) = not_there (answer-IsMissing Payload c e logs m)
Fault-Reply binder clean op c e logs (foreign f) = failed (answer-IsForeign Payload c e logs f)

module _ {S : Type 0} (binder : Binder) (clean : BindsClean binder) (repo : Repository S)
    (rows : S → List Task) (laws : IsRepository rows repo) where
  -- Every reply of the task API is one of the envelopes of its operation: the task with 200 or 201,
  -- the page with 200, the empty 204, or an error with 400 or 422 and INVALID_REQUEST, with 404 and
  -- TASK_NOT_FOUND, or with 500 and INTERNAL_ERROR, over a repository that keeps the contract, rows
  -- in the order of their keys, and a binder that reports no error of the framework.
  pub run-Reply :
      (op : Operation) (c : Request) (s : S) (logs : List Entry)
      → IsDescending (rows s)
      → Reply op (answer Payload c (run binder repo op c s).0 logs).0
  unfolding answer
  run-Reply op c s logs order = elim (run-Spec repo rows laws binder op c s order) [
    | refused e r why same ↦ rw r (Fault-Reply binder clean op c e logs why)
    | added req t row a is b input kept free shows r same ↦ rw r (made t a is shows refl)
    | shown i t a is p found shows r same ↦ rw r (one t a (inl is) shows refl)
    | listed ts answers meta is stored falling shows r same ↦
        rw r (page ts answers meta is shows refl)
    | changed i req t t' row a is p b found changes kept key shows r same ↦
        rw r (one t' a (inr is) shows refl)
    | removed i t is p found r same ↦ rw r (gone is refl)
  ]

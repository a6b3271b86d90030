-- ===== src/Task/Routes/Statuses.antt =====
-- The statuses of the replies of each operation of the task API, while the repository is available.
use go_fiber_starter.Prelude.{
  ℕ, ◌<◌, ◌≡◌, refl, ap, ◌∙◌, ◌⊎◌, inl, inr, none, some, List, [], ◌∷◌, ok, err, Result-cases,
  Option-cases, arith,
}
use go_fiber_starter.Prelude.Int.{ℤ}
use go_fiber_starter.Apperror.{
  GoError, app, status, find_app, find_fiber, new_bad_request, as_app_error,
}
use go_fiber_starter.Pagination.{default_page, default_limit, PageMeta, new_page_query}
use go_fiber_starter.Pagination.Bounds.{new_page_meta-total}
use go_fiber_starter.Fiber.{Request}
use go_fiber_starter.Httpx.{success, created, success_with_meta, no_content}
use go_fiber_starter.Log.{Entry}
use go_fiber_starter.Payload.{Payload}
use go_fiber_starter.Validator.{bind_error_to_app_error}
use go_fiber_starter.Validator.Classes.{bind_error_classes}
use go_fiber_starter.Router.ErrorHandler.{answer, error_handler}
use go_fiber_starter.Router.Observed.{error_handler_rejects}
use go_fiber_starter.Task.Model.{Task, find_row}
use go_fiber_starter.Task.Dto
use go_fiber_starter.Task.Dto.{CreateRequest, UpdateRequest, to_response, to_responses}
use go_fiber_starter.Task.Repository.{Repository}
use go_fiber_starter.Task.Repository.Contract.{IsAvailable}
use go_fiber_starter.Task.Service
use go_fiber_starter.Task.Service.{mutate, new_task, answered, deleted_error}
use go_fiber_starter.Task.Handler.{Binder, parse_id, atoi_default}
use go_fiber_starter.Task.Routes.{Operation, create, list, get, update, delete, run}
use go_fiber_starter.Task.Routes.Answers.{run-missing}
use go_fiber_starter.Task.Routes.Faults.{parse_id_err}
use go_fiber_starter.Task.Routes.Replies.{BindsClean, find_fiber-bind}

abbrev pub AnyOf : ℕ → List ℕ → Type 0
AnyOf n [] = ⊥
AnyOf n (m ∷ ms) = (n ≡ m) ⊎ AnyOf n ms

-- The statuses of the handler of each operation.
abbrev pub statuses : Operation → List ℕ
statuses create = 201 ∷ 400 ∷ 422 ∷ []
statuses list = 200 ∷ []
statuses get = 200 ∷ 400 ∷ 404 ∷ []
statuses update = 200 ∷ 400 ∷ 404 ∷ 422 ∷ []
statuses delete = 204 ∷ 400 ∷ 404 ∷ []

bad_id_status :
    (c : Request) (x : GoError) (logs : List Entry)
    → parse_id c.param_id ≡ err x
    → (error_handler Payload c x logs).0.status ≡ 400
unfolding error_handler find_fiber find_app as_app_error new_bad_request
bad_id_status c x logs p = rw (parse_id_err c.param_id x p) refl

pub bad_body_status :
    (c : Request) (x : GoError) (logs : List Entry)
    → find_fiber x ≡ none
    → ((error_handler Payload c (app (bind_error_to_app_error x)) logs).0.status ≡ 400)
      ⊎ ((error_handler Payload c (app (bind_error_to_app_error x)) logs).0.status ≡ 422)
unfolding find_app
bad_body_status c x logs clean =
    let e = bind_error_to_app_error x in
    let told = λ (small : status e < 500).
      ap (λ r. r.status)
        (error_handler_rejects Payload c (app e) e logs refl (find_fiber-bind x clean) small) in
    elim (bind_error_classes x).0 [
      | inl (es, found, sort, named) ↦ inr (told (omega (arith, sort)) ∙ sort)
      | inr (found, sort, named) ↦ inl (told (omega (arith, sort)) ∙ sort)
    ]

module _ {S : Type 0} (binder : Binder) (clean : BindsClean binder) (repo : Repository S)
    (rows : S → List Task) where
  created_up :
      (req : CreateRequest) (s : S)
      → IsAvailable rows repo s
      → (r : Dto.Response) × ((Service.create repo req s).0 ≡ ok r)
  unfolding Service.create new_task
  created_up req s up =
      let (t, s', stored) = up.create_up (new_task req) refl in (to_response t, rw stored refl)

  got_up :
      (i : ℕ) (t : Task) (s : S)
      → IsAvailable rows repo s
      → find_row i (rows s) ≡ some t
      → Service.get repo i s ≡ ok (to_response t)
  unfolding Service.get
  got_up i t s up found = rw (up.reads.find_up i t found) refl

  listed_up :
      (page limit : ℤ) (s : S)
      → IsAvailable rows repo s
      → (p : List Dto.Response × PageMeta) × (Service.list repo page limit s ≡ ok p)
  unfolding Service.list
  listed_up page limit s up =
      let ((ts, n), listed) = up.reads.list_up (new_page_query page limit) in
      let (m, fine) = new_page_meta-total page limit n in
      ((to_responses ts, m), rw (listed, fine) refl)

  updated_up :
      (i : ℕ) (req : UpdateRequest) (t : Task) (s : S)
      → IsAvailable rows repo s
      → find_row i (rows s) ≡ some t
      → (r : Dto.Response) × ((Service.update repo i req s).0 ≡ ok r)
  unfolding Service.update mutate
  updated_up i req t s up found =
      let (t', s', stored) = up.update_up i (mutate req) t (λ x. refl) found in
      (to_response t', rw stored refl)

  deleted_up :
      (i : ℕ) (t : Task) (s : S)
      → IsAvailable rows repo s
      → find_row i (rows s) ≡ some t
      → (Service.delete repo i s).0 ≡ ok tt
  unfolding Service.delete
  deleted_up i t s up found = rw (up.delete_up i t found) refl

  get_status :
      (c : Request) (i : ℕ) (s : S) (logs : List Entry)
      → IsAvailable rows repo s
      → parse_id c.param_id ≡ ok i
      → AnyOf (answer Payload c (run binder repo get c s).0 logs).0.status (statuses get)
  unfolding run answer success
  get_status c i s logs up p = elim (Option-cases (find_row i (rows s))) [
    | inr (t, found) ↦ inl (rw p (rw (got_up i t s up found) refl))
    | inl gone ↦
        inr (inr (inl (ap (λ r. r.status) (run-missing binder repo rows get c i s logs up p gone))))
  ]

  update_status :
      (c : Request) (i : ℕ) (req : UpdateRequest) (s : S) (logs : List Entry)
      → IsAvailable rows repo s
      → parse_id c.param_id ≡ ok i
      → binder.update_request c ≡ ok req
      → AnyOf (answer Payload c (run binder repo update c s).0 logs).0.status (statuses update)
  unfolding run answer success
  update_status c i req s logs up p b = elim (Option-cases (find_row i (rows s))) [
    | inr (t, found) ↦
        let (r, done) = updated_up i req t s up found in inl (rw (p, b) (rw done refl))
    | inl gone ↦ inr (
        inr (
          inl (
            ap (λ r. r.status)
              (run-missing binder repo rows update c i s logs up (req, p, b) gone))))
  ]

  delete_status :
      (c : Request) (i : ℕ) (s : S) (logs : List Entry)
      → IsAvailable rows repo s
      → parse_id c.param_id ≡ ok i
      → AnyOf (answer Payload c (run binder repo delete c s).0 logs).0.status (statuses delete)
  unfolding run answer no_content
  delete_status c i s logs up p = elim (Option-cases (find_row i (rows s))) [
    | inr (t, found) ↦ inl (rw p (rw (deleted_up i t s up found) refl))
    | inl gone ↦
        inr (
          inr (inl (ap (λ r. r.status) (run-missing binder repo rows delete c i s logs up p gone))))
  ]

  -- While the repository is available, the status of a reply is one of those of its operation.
  pub run-statuses :
      (op : Operation) (c : Request) (s : S) (logs : List Entry)
      → IsAvailable rows repo s
      → AnyOf (answer Payload c (run binder repo op c s).0 logs).0.status (statuses op)
  unfolding run answer created success_with_meta
  run-statuses create c s logs up = elim (Result-cases (binder.create_request c)) [
    | inl (req, b) ↦ let (r, done) = created_up req s up in inl (rw b (rw done refl))
    | inr (x, b) ↦ rw b (
        inr (elim (bad_body_status c x logs (clean.create_clean c x b)) [
          | inl bad ↦ inl bad
          | inr unprocessable ↦ inr (inl unprocessable)
        ]))
  ]
  run-statuses list c s logs up =
      let page = atoi_default c.query_page default_page in
      let limit = atoi_default c.query_limit default_limit in
      let (p, done) = listed_up page limit s up in inl (rw done refl)
  run-statuses get c s logs up = elim (Result-cases (parse_id c.param_id)) [
    | inl (i, p) ↦ get_status c i s logs up p
    | inr (x, p) ↦ rw p (inr (inl (bad_id_status c x logs p)))
  ]
  run-statuses update c s logs up = elim (Result-cases (parse_id c.param_id)) [
    | inr (x, p) ↦ rw p (inr (inl (bad_id_status c x logs p)))
    | inl (i, p) ↦ elim (Result-cases (binder.update_request c)) [
      | inl (req, b) ↦ update_status c i req s logs up p b
      | inr (x, b) ↦
          rw (p, b)
            (inr (elim (bad_body_status c x logs (clean.update_clean c x b)) [
              | inl bad ↦ inl bad
              | inr unprocessable ↦ inr (inr (inl unprocessable))
            ]))
    ]
  ]
  run-statuses delete c s logs up = elim (Result-cases (parse_id c.param_id)) [
    | inl (i, p) ↦ delete_status c i s logs up p
    | inr (x, p) ↦ rw p (inr (inl (bad_id_status c x logs p)))
  ]

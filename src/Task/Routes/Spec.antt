-- ===== src/Task/Routes/Spec.antt =====
-- The task API as a map from keys to tasks: what each request does to the map and what it answers.
mod Lookups
pub mod Refines
use go_fiber_starter.Prelude.{
  ℕ, ◌≡◌, false, Option, none, some, List, Result, ok, err, All, ◌==◌, if◌then◌else◌,
}
use go_fiber_starter.Apperror.{GoError}
use go_fiber_starter.Pagination.{PageMeta}
use go_fiber_starter.Fiber.{Request, Response}
use go_fiber_starter.Payload.{Payload, task, tasks}
use go_fiber_starter.Task.Model.{Task, find_row}
use go_fiber_starter.Task.Model.Rows.{IsDescending}
use go_fiber_starter.Task.Dto
use go_fiber_starter.Task.Dto.{CreateRequest, UpdateRequest}
use go_fiber_starter.Task.Gorm.{Stored}
use go_fiber_starter.Task.Routes.Plain.{Shows, ShowsAll, Changes, data_reply, empty_reply}
use go_fiber_starter.Task.Handler.{Binder, parse_id}
use go_fiber_starter.Task.Routes.{Operation, create, list, get, update, delete}
use go_fiber_starter.Task.Routes.Faults.{Fault}

abbrev pub Store : Type 0
Store = ℕ → Option Task

-- The map that a state stands for, by the rows that it has.
abbrev pub view : {S : Type 0} → (S → List Task) → S → Store
view rows s i = find_row i (rows s)

abbrev pub Same : Store → Store → Type 0
Same m m' = (i : ℕ) → m' i ≡ m i

abbrev pub put : Task → Store → Store
put t m i = if t.id == i then some t else m i

abbrev pub without : ℕ → Store → Store
without j m i = if j == i then none else m i

-- The task of a request to create one.
pub record IsNew (req : CreateRequest) (t : Task) : Type 0 where
  pub title : t.title ≡ req.title
  pub done : t.done ≡ false
  pub due_date : t.due_date ≡ req.due_date

pub data Spec (binder : Binder) (op : Operation) (c : Request) (m : Store)
    (r : Result GoError (Response Payload)) (m' : Store) : Type 0 where
  -- an error has changed nothing
  refused : (e : GoError) → r ≡ err e → Fault binder c e → Same m m' → Spec binder op c m r m'
  -- a new key has the task of the body
  added :
      (req : CreateRequest) (t row : Task) (a : Dto.Response)
      → op ≡ create
      → binder.create_request c ≡ ok req
      → IsNew req t
      → Stored t row
      → m row.id ≡ none
      → Shows t a
      → r ≡ ok (data_reply 201 (task a) none)
      → Same (put row m) m'
      → Spec binder op c m r m'
  -- the task under the key of the path
  shown :
      (i : ℕ) (t : Task) (a : Dto.Response)
      → op ≡ get
      → parse_id c.param_id ≡ ok i
      → m i ≡ some t
      → Shows t a
      → r ≡ ok (data_reply 200 (task a) none)
      → Same m m'
      → Spec binder op c m r m'
  -- tasks of the map, the newest first
  listed :
      (ts : List Task) (answers : List Dto.Response) (meta : PageMeta)
      → op ≡ list
      → All (λ t. m t.id ≡ some t) ts
      → IsDescending ts
      → ShowsAll ts answers
      → r ≡ ok (data_reply 200 (tasks answers) (some meta))
      → Same m m'
      → Spec binder op c m r m'
  -- the task under the key of the path, with the fields of the body
  changed :
      (i : ℕ) (req : UpdateRequest) (t t' row : Task) (a : Dto.Response)
      → op ≡ update
      → parse_id c.param_id ≡ ok i
      → binder.update_request c ≡ ok req
      → m i ≡ some t
      → Changes req t t'
      → Stored t' row
      → row.id ≡ i
      → Shows t' a
      → r ≡ ok (data_reply 200 (task a) none)
      → Same (put row m) m'
      → Spec binder op c m r m'
  -- the task under the key of the path is gone
  removed :
      (i : ℕ) (t : Task)
      → op ≡ delete
      → parse_id c.param_id ≡ ok i
      → m i ≡ some t
      → r ≡ ok empty_reply
      → Same (without i m) m'
      → Spec binder op c m r m'

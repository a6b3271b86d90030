-- ===== src/Task/Handler.antt =====
-- internal/modules/task/handler.go.
pub mod PathId
pub mod Limits
use Prim.Native.Char.{code}
use Prim.Native.String.{String, [], ◌∷◌, count}
use go_fiber_starter.Prelude.{
  ℕ, ◌≤◌, ◌≡◌, Option, none, some, List, Result, ok, err, ltb, leb, ◌==◌, if◌then◌else◌,
}
use go_fiber_starter.Prelude
use go_fiber_starter.Prelude.Int.{ℤ, pos, ltb_ℤ, modulus, half_modulus, sub_ℕ}
use go_fiber_starter.Prelude.Text.{digits_value}
use go_fiber_starter.Apperror.{GoError, app, new_bad_request}
use go_fiber_starter.Pagination.{default_page, default_limit, PageMeta}
use go_fiber_starter.Fiber.{Request, Response, Handler}
use go_fiber_starter.Httpx.{success, created, success_with_meta, no_content}
use go_fiber_starter.Validator.{bind_error_to_app_error}
use go_fiber_starter.Payload.{Payload, task, tasks}
use go_fiber_starter.Task.Dto
use go_fiber_starter.Task.Dto.{CreateRequest, UpdateRequest}
use go_fiber_starter.Task.Repository.{Repository}
use go_fiber_starter.Task.Service

-- strconv.ParseUint(raw, 10, 64): a number of 64 bits, with no sign.
abbrev pub below : ℕ → Option ℕ → Option ℕ
below bound none = none
below bound (some n) = if ltb n bound then some n else none

unfoldable pub parse_uint : String → Option ℕ
unfolding digits_value
parse_uint [] = none
parse_uint (c ∷ s) = below modulus (digits_value 0 (c ∷ s))

-- strconv.Atoi: a signed number of 64 bits, with an optional sign.
abbrev pub digits : String → Option ℕ
digits [] = none
digits (c ∷ s) = digits_value 0 (c ∷ s)

abbrev pub plus : Option ℕ → Option ℤ
plus none = none
plus (some n) = if ltb n half_modulus then some (pos n) else none

abbrev pub minus : Option ℕ → Option ℤ
minus none = none
minus (some n) = if leb n half_modulus then some (sub_ℕ 0 n) else none

unfoldable pub atoi : String → Option ℤ
unfolding digits_value
atoi [] = none
atoi (c ∷ s) =
    if code c == b'-'
    then minus (digits s)
    else if code c == b'+'
    then plus (digits s)
    else plus (digits (c ∷ s))

abbrev pub bad_id : GoError
bad_id = app (new_bad_request "path parameter 'id' must be a positive integer" Prelude.[])

abbrev pub positive_id : Option ℕ → Result GoError ℕ
positive_id none = err bad_id
positive_id (some i) = if i == 0 then err bad_id else ok i

unfoldable pub parse_id : String → Result GoError ℕ
unfolding new_bad_request parse_uint
parse_id raw = positive_id (parse_uint raw)

abbrev pub positive_or : Option ℤ → ℤ → ℤ
positive_or none default = default
positive_or (some n) default = if ltb_ℤ n (pos 1) then default else n

unfoldable pub atoi_default : String → ℤ → ℤ
unfolding atoi
atoi_default raw default = positive_or (atoi raw) default

-- `c.Bind().Body(&req)` of the web framework, with the struct validator: the titles that pass
-- have 1 to 200 characters (`required,min=1,max=200` and `omitempty,min=1,max=200`).
pub record Binder : Type 0 where
  pub create_request : Request → Result GoError CreateRequest
  pub update_request : Request → Result GoError UpdateRequest

abbrev pub Fits : String → Type 0
Fits title = (1 ≤ count title) × (count title ≤ 200)

abbrev pub FitsIfSet : Option String → Type 0
FitsIfSet none = Unit
FitsIfSet (some title) = Fits title

pub record Validates (b : Binder) : Type 0 where
  pub create_fits : (req : Request) (r : CreateRequest) → b.create_request req ≡ ok r → Fits r.title
  pub update_fits :
      (req : Request) (r : UpdateRequest) → b.update_request req ≡ ok r → FitsIfSet r.title

abbrev pub bound : {A : Type 0} → Result GoError A → Result GoError A
bound (ok a) = ok a
bound (err e) = err (app (bind_error_to_app_error e))

abbrev pub created_task : Result GoError Dto.Response → Result GoError (Response Payload)
created_task (ok r) = ok (created (task r))
created_task (err e) = err e

abbrev pub one_task : Result GoError Dto.Response → Result GoError (Response Payload)
one_task (ok r) = ok (success (task r))
one_task (err e) = err e

abbrev pub page_of_tasks :
    Result GoError (List Dto.Response × PageMeta) → Result GoError (Response Payload)
page_of_tasks (ok (items, meta)) = ok (success_with_meta (tasks items) meta)
page_of_tasks (err e) = err e

abbrev pub nothing : Result GoError (Unit {0}) → Result GoError (Response Payload)
nothing (ok u) = ok (no_content Payload)
nothing (err e) = err e

-- The rest of a handler, which an early return skips: the state is then as it was.
abbrev pub then_run :
    {S A : Type 0}
    → Result GoError A
    → (A → S → Result GoError (Response Payload) × S)
    → S
    → Result GoError (Response Payload) × S
then_run (ok a) f s = f a s
then_run (err e) f s = (err e, s)

module _ {S : Type 0} (binder : Binder) (repo : Repository S) where
  unfoldable pub create : Handler S Payload
  unfolding created Service.create bind_error_to_app_error
  create c =
      then_run (bound (binder.create_request c))
        λ req s. let (r, s') = Service.create repo req s in (created_task r, s')

  unfoldable pub list : Handler S Payload
  unfolding success_with_meta Service.list atoi_default
  list c s =
      let page = atoi_default c.query_page default_page in
      let limit = atoi_default c.query_limit default_limit in
      (page_of_tasks (Service.list repo page limit s), s)

  unfoldable pub get : Handler S Payload
  unfolding success Service.get parse_id
  get c = then_run (parse_id c.param_id) λ i s. (one_task (Service.get repo i s), s)

  unfoldable pub update : Handler S Payload
  unfolding success Service.update parse_id bind_error_to_app_error
  update c = then_run (parse_id c.param_id) λ i.
      then_run (bound (binder.update_request c))
        λ req s. let (r, s') = Service.update repo i req s in (one_task r, s')

  unfoldable pub delete : Handler S Payload
  unfolding no_content Service.delete parse_id
  delete c =
      then_run (parse_id c.param_id) λ i s. let (r, s') = Service.delete repo i s in (nothing r, s')

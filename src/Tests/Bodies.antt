-- ===== src/Tests/Bodies.antt =====
-- The theorems on the bodies of requests, at a creation with no title and an update with a long one.
use go_fiber_starter.Prelude.{
  ◌<◌, ◌≡◌, ◌≢◌, ◌⊎◌, refl, ap, false, none, some, Option, List, [], ◌∷◌, Result, ok, err, String,
}
use Prim.Native.String.{count}
use go_fiber_starter.Apperror.{GoError, FieldError, validation, find_validation, find_fiber}
use go_fiber_starter.Fiber.{Request}
use go_fiber_starter.Validator.{Field, StructValidator, validate}
use go_fiber_starter.Validator.Tags.{violations, IsStructValidator, IsBind}
use go_fiber_starter.Task.Dto.{CreateRequest, UpdateRequest, create_fields, update_fields}
use go_fiber_starter.Task.Service as TaskService
use go_fiber_starter.Task.Handler.{Binder, Fits, parse_id, created_task, one_task}
use go_fiber_starter.Task.Routes
use go_fiber_starter.Task.Routes.{run}
use go_fiber_starter.Task.Routes.Bodies.{IsBinder, IsUntitled, create_titled, update_titled}
use go_fiber_starter.Tests.{request, table, repo}

abbrev failure : List FieldError → Option GoError
failure [] = none
failure (e ∷ es) = some (validation (e ∷ es) "invalid")

abbrev tags : StructValidator
tags = record { struct = λ fields. failure (violations fields) }

failure_lem :
    (es : List FieldError)
    → es ≢ []
    → (e : GoError) × (failure es ≡ some e) × (find_validation e ≡ some es) × (find_fiber e ≡ none)
unfolding find_validation find_fiber
failure_lem [] h = absurd (h refl)
failure_lem (e ∷ es) h = (validation (e ∷ es) "invalid", refl, refl, refl)

tags-IsStructValidator : IsStructValidator tags
tags-IsStructValidator = record {
  accepts = λ fields h. ap failure h;
  rejects = λ fields h. failure_lem (violations fields) h;
}

abbrev checked : {A : Type 0} → A → Option GoError → Result GoError A
checked r none = ok r
checked r (some e) = err e

-- A binder over a parser that never fails.
abbrev bind : {A : Type 0} → (A → List Field) → (Request → A) → Request → Result GoError A
unfolding validate
bind fields read c = checked (read c) (validate tags (fields (read c)))

bind-IsBind :
    {A : Type 0} (fields : A → List Field) (read : Request → A)
    → IsBind tags fields (λ c. ok (read c)) (bind fields read)
unfolding validate
bind-IsBind fields read = record {
  unparsed = λ c e h. cc;
  passed = λ c r h passes. let same : read c ≡ r = cc in rw same (ap (checked r) passes);
  failed = λ c r e h fails. let same : read c ≡ r = cc in rw same (ap (checked r) fails);
}

abbrev untitled : Request → CreateRequest
untitled c = record { title = ""; due_date = none }

abbrev long_title : String
long_title =
    "buy oat milk and bread, and then buy oat milk and bread, and then buy oat milk and bread, and then buy oat milk and bread, and then buy oat milk and bread, and then buy oat milk and bread, and then buy oat milk"

abbrev titled : Request → UpdateRequest
titled c = record {
  title = some long_title;
  done = none;
  due_date = record { set = false; null = false; value = 0 };
}

abbrev binder : Binder
binder = record {
  create_request = bind create_fields untitled;
  update_request = bind update_fields titled;
}

binder-IsBinder : IsBinder tags binder (λ c. ok (untitled c)) (λ c. ok (titled c))
binder-IsBinder = record {
  create_bind = bind-IsBind create_fields untitled;
  update_bind = bind-IsBind update_fields titled;
}

abbrev posting : Request
posting = request "" ""

create_titled_example :
    ((Fits "")
      × (run binder repo Routes.create posting table ≡ (
        created_task (TaskService.create repo (untitled posting) table).0,
        (TaskService.create repo (untitled posting) table).1,
      )))
    ⊎ ((count "" ≡ 0) × IsUntitled binder repo "required" Routes.create posting table [])
    ⊎ ((200 < count "") × IsUntitled binder repo "max" Routes.create posting table [])
create_titled_example =
    create_titled tags tags-IsStructValidator binder (λ c. ok (untitled c)) (λ c. ok (titled c))
      binder-IsBinder repo posting (untitled posting) table [] refl

abbrev patching : Request
patching = request "2" ""

update_titled_example :
    ((Fits long_title)
      × (run binder repo Routes.update patching table ≡ (
        one_task (TaskService.update repo 2 (titled patching) table).0,
        (TaskService.update repo 2 (titled patching) table).1,
      )))
    ⊎ ((title : String) × (◌≡◌ {A = Option String} (some long_title) (some title))
        × (((count title ≡ 0) × IsUntitled binder repo "min" Routes.update patching table [])
            ⊎ ((200 < count title) × IsUntitled binder repo "max" Routes.update patching table [])))
unfolding parse_id
update_titled_example =
    update_titled tags tags-IsStructValidator binder (λ c. ok (untitled c)) (λ c. ok (titled c))
      binder-IsBinder repo patching 2 (titled patching) table [] refl refl

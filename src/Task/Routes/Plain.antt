-- ===== src/Task/Routes/Plain.antt =====
-- The replies of the task API and the change of a task, written out field by field: what
-- api/openapi.yaml and internal/modules/task mean, apart from the code that makes them.
use go_fiber_starter.Prelude.{
  ℕ, ◌≡◌, refl, ap, ◌⊎◌, inl, inr, true, false, Option, none, some, List, [], ◌∷◌, String,
  Bool-cases, Option-cases,
}
use go_fiber_starter.Apperror.{Detail}
use go_fiber_starter.Fiber.{Response, envelope, empty}
use go_fiber_starter.Pagination.{PageMeta}
use go_fiber_starter.Payload.{Payload}
use go_fiber_starter.Task.Model.{Task, Time}
use go_fiber_starter.Task.Dto
use go_fiber_starter.Task.Dto.{NullableTime, UpdateRequest, to_response, to_responses}
use go_fiber_starter.Task.Gorm.{Touched}
use go_fiber_starter.Task.Service.{mutate}

-- A response that shows a task.
pub record Shows (t : Task) (a : Dto.Response) : Type 0 where
  pub id : a.id ≡ t.id
  pub title : a.title ≡ t.title
  pub done : a.done ≡ t.done
  pub due_date : a.due_date ≡ t.due_date
  pub created_at : a.created_at ≡ t.created_at
  pub updated_at : a.updated_at ≡ t.updated_at

abbrev pub ShowsAll : List Task → List Dto.Response → Type 0
ShowsAll [] [] = Unit
ShowsAll [] (a ∷ answers) = ⊥
ShowsAll (t ∷ ts) [] = ⊥
ShowsAll (t ∷ ts) (a ∷ answers) = Shows t a × ShowsAll ts answers

-- The envelopes, with their statuses.
abbrev pub data_reply : ℕ → Payload → Option PageMeta → Response Payload
data_reply status payload meta = record {
  status = status;
  body = envelope (record { success = true; payload = some payload; error = none; meta = meta });
}

abbrev pub empty_reply : Response Payload
empty_reply = record { status = 204; body = empty }

abbrev pub error_reply : ℕ → (code message : String) → List Detail → Response Payload
error_reply status code message details = record {
  status = status;
  body = envelope (record {
    success = false;
    payload = none;
    error = some (record { code = code; message = message; details = details });
    meta = none;
  });
}

-- A member of the body that is not given keeps the old value.
abbrev pub Given : {A : Type 0} → Option A → A → A → Type 0
Given none old new = new ≡ old
Given (some value) old new = new ≡ value

-- A due date is kept, cleared by a null, or replaced.
abbrev pub GivenDue : NullableTime → Option Time → Option Time → Type 0
GivenDue n old new =
    ((n.set ≡ false) × (new ≡ old))
    ⊎ ((n.set ≡ true) × (n.null ≡ true) × (new ≡ none))
    ⊎ ((n.set ≡ true) × (n.null ≡ false) × (new ≡ some n.value))

-- What an update makes of a task; the time of the update is left open.
pub record Changes (req : UpdateRequest) (t t' : Task) : Type 0 where
  pub id : t'.id ≡ t.id
  pub title : Given req.title t.title t'.title
  pub done : Given req.done t.done t'.done
  pub due_date : GivenDue req.due_date t.due_date t'.due_date
  pub created_at : t'.created_at ≡ t.created_at

pub to_response-Shows : (t : Task) → Shows t (to_response t)
unfolding to_response
to_response-Shows t = record {
  id = refl;
  title = refl;
  done = refl;
  due_date = refl;
  created_at = refl;
  updated_at = refl;
}

pub to_responses-ShowsAll : (ts : List Task) → ShowsAll ts (to_responses ts)
unfolding to_responses
to_responses-ShowsAll [] = tt
to_responses-ShowsAll (t ∷ ts) = (to_response-Shows t, to_responses-ShowsAll ts)

title-Given : (req : UpdateRequest) (t : Task) → Given req.title t.title (mutate req t).title
unfolding mutate
title-Given req t = elim (Option-cases req.title) [
  | inl unset ↦ rw unset refl
  | inr (title, is) ↦ rw is refl
]

done-Given : (req : UpdateRequest) (t : Task) → Given req.done t.done (mutate req t).done
unfolding mutate
done-Given req t = elim (Option-cases req.done) [
  | inl unset ↦ rw unset refl
  | inr (done, is) ↦ rw is refl
]

due-GivenDue :
    (req : UpdateRequest) (t : Task) → GivenDue req.due_date t.due_date (mutate req t).due_date
unfolding mutate
due-GivenDue req t = elim (Bool-cases req.due_date.set) [
  | inr unset ↦ inl (unset, rw unset refl)
  | inl is_set ↦ elim (Bool-cases req.due_date.null) [
    | inl null ↦ inr (inl (is_set, null, rw (is_set, null) refl))
    | inr value ↦ inr (inr (is_set, value, rw (is_set, value) refl))
  ]
]

pub mutate-Changes :
    (req : UpdateRequest) (t t' : Task) → Touched (mutate req t) t' → Changes req t t'
mutate-Changes req t t' h = record {
  id = unfold mutate in ap (λ (x : Task). x.id) h;
  title =
      let same : t'.title ≡ (mutate req t).title = ap (λ (x : Task). x.title) h in
      rw same (title-Given req t);
  done =
      let same : t'.done ≡ (mutate req t).done = ap (λ (x : Task). x.done) h in
      rw same (done-Given req t);
  due_date =
      let same : t'.due_date ≡ (mutate req t).due_date = ap (λ (x : Task). x.due_date) h in
      rw same (due-GivenDue req t);
  created_at = unfold mutate in ap (λ (x : Task). x.created_at) h;
}

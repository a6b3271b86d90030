-- ===== src/Task/Routes/Effects.antt =====
-- What a request to the task API does to the table.
use go_fiber_starter.Prelude.{
  ℕ, refl, ap, none, some, List, All, Result-cases, inl, inr, Option, String,
}
use go_fiber_starter.Fiber.{Request}
use go_fiber_starter.Task.Model.{Task}
use go_fiber_starter.Task.Model.Rows.{
  IsDescending, IsDescending-set_row, IsDescending-remove_row, All-find_row, All-set_row,
  All-remove_row,
}
use go_fiber_starter.Task.Dto.{CreateRequest, UpdateRequest}
use go_fiber_starter.Task.Gorm.{Touched}
use go_fiber_starter.Task.Repository.{Repository}
use go_fiber_starter.Task.Repository.Contract.{IsRepository}
use go_fiber_starter.Task.Service
use go_fiber_starter.Task.Service.{mutate, field_or}
use go_fiber_starter.Task.Service.Outcome.{both, create_effect, update_effect, delete_effect}
use go_fiber_starter.Task.Service.Errors.{create_fault, update_fault, delete_fault}
use go_fiber_starter.Task.Handler.{Binder, Validates, Fits, FitsIfSet, parse_id}
use go_fiber_starter.Task.Routes.{Operation, create, list, get, update, delete, run}

-- The keys fall from row to row, and every title has 1 to 200 characters.
pub record IsTable (ts : List Task) : Type 0 where
  pub descending : IsDescending ts
  pub titles : All (λ t. Fits t.title) ts

field_or-Fits :
    (new : Option String) (old : String) → FitsIfSet new → Fits old → Fits (field_or new old)
field_or-Fits none old n o = o
field_or-Fits (some title) old n o = n

title-Fits :
    (req : UpdateRequest) (t t' : Task)
    → FitsIfSet req.title
    → Fits t.title
    → Touched (mutate req t) t'
    → Fits t'.title
unfolding mutate
title-Fits req t t' new old h =
    rw (ap (λ (x : Task). x.title) h) (field_or-Fits req.title t.title new old)

module _ {S : Type 0} (binder : Binder) (valid : Validates binder) (repo : Repository S)
    (rows : S → List Task) (laws : IsRepository rows repo) where
  service_create-IsTable :
      (req : CreateRequest) (s : S)
      → Fits req.title
      → IsTable (rows s)
      → IsTable (rows (Service.create repo req s).1)
  service_create-IsTable req s fits v = elim (Result-cases (Service.create repo req s).0) [
    | inl (r, e) ↦
        let (t, same, added, title, done, due, above) =
          create_effect repo rows laws req r s _ (both e refl) in
        let (row, stored, grown) = added in
        let fits_row : Fits row.title = rw (stored.title, title) fits in
        rw grown (record {
          descending = (rw stored.id above, v.descending);
          titles = (fits_row, v.titles);
        })
    | inr (x, e) ↦
        let (kept, why) = create_fault repo rows laws req x s _ (both e refl) in rw kept v
  ]

  service_update-IsTable :
      (i : ℕ) (req : UpdateRequest) (s : S)
      → FitsIfSet req.title
      → IsTable (rows s)
      → IsTable (rows (Service.update repo i req s).1)
  service_update-IsTable i req s fits v = elim (Result-cases (Service.update repo i req s).0) [
    | inl (r, e) ↦
        let (t, t', found, touched, same, set) =
          update_effect repo rows laws i req r s _ (both e refl) in
        let old = All-find_row (λ x. Fits x.title) i t (rows s) v.titles found in
        let (row, stored, changed) = set in
        let fits_row : Fits row.title = rw stored.title (title-Fits req t t' fits old touched) in
        rw changed (record {
          descending = IsDescending-set_row row (rows s) v.descending;
          titles = All-set_row (λ x. Fits x.title) row (rows s) v.titles fits_row;
        })
    | inr (x, e) ↦
        let (kept, why) = update_fault repo rows laws i req x s _ (both e refl) in rw kept v
  ]

  service_delete-IsTable :
      (i : ℕ) (s : S) → IsTable (rows s) → IsTable (rows (Service.delete repo i s).1)
  service_delete-IsTable i s v = elim (Result-cases (Service.delete repo i s).0) [
    | inl (tt, e) ↦
        let (t, found, removed) = delete_effect repo rows laws i s _ (both e refl) in
        rw removed (record {
          descending = IsDescending-remove_row i (rows s) v.descending;
          titles = All-remove_row (λ x. Fits x.title) i (rows s) v.titles;
        })
    | inr (x, e) ↦ let (kept, why) = delete_fault repo rows laws i x s _ (both e refl) in rw kept v
  ]

  -- Whatever the request, its outcome and the state of the database, a request to the task API
  -- leaves a table whose keys fall from row to row and whose titles have 1 to 200 characters, if it
  -- found one, provided that the validator enforces the tags of the requests and the repository
  -- keeps the contract.
  pub run-IsTable :
      (op : Operation) (c : Request) (s : S)
      → IsTable (rows s)
      → IsTable (rows (run binder repo op c s).1)
  unfolding run
  run-IsTable create c s v = elim (Result-cases (binder.create_request c)) [
    | inl (req, e) ↦ rw e (service_create-IsTable req s (valid.create_fits c req e) v)
    | inr (x, e) ↦ rw e v
  ]
  run-IsTable list c s v = v
  run-IsTable get c s v = elim (Result-cases (parse_id c.param_id)) [
    | inl (i, e) ↦ rw e v
    | inr (x, e) ↦ rw e v
  ]
  run-IsTable update c s v = elim (Result-cases (parse_id c.param_id)) [
    | inl (i, e) ↦ elim (Result-cases (binder.update_request c)) [
      | inl (req, e') ↦ rw (e, e') (service_update-IsTable i req s (valid.update_fits c req e') v)
      | inr (x, e') ↦ rw (e, e') v
    ]
    | inr (x, e) ↦ rw e v
  ]
  run-IsTable delete c s v = elim (Result-cases (parse_id c.param_id)) [
    | inl (i, e) ↦ rw e (service_delete-IsTable i s v)
    | inr (x, e) ↦ rw e v
  ]

-- ===== src/Task/Routes/Spec/Refines.antt =====
-- The handlers of internal/modules/task do what the map from keys to tasks says.
use go_fiber_starter.Prelude.{
  ℕ, ◌≡◌, refl, ap, ◌∙◌, inl, inr, none, some, List, ok, err, Result, All, Result-cases, Bool-cases,
  arith, ◌==◌,
}
use go_fiber_starter.Prelude.Int.{ℤ}
use go_fiber_starter.Apperror.{GoError}
use go_fiber_starter.Fiber.{Request, Response}
use go_fiber_starter.Httpx.{success, created, success_with_meta, no_content}
use go_fiber_starter.Pagination.{PageMeta, new_page_query, offset}
use go_fiber_starter.Pagination.Bounds.{new_page_meta-total}
use go_fiber_starter.Payload.{Payload, task, tasks}
use go_fiber_starter.Task.Model.{Task, find_row, set_row}
use go_fiber_starter.Task.Model.Rows.{
  IsDescending, find_row-set_row, find_row-remove_row, find_row-id,
}
use go_fiber_starter.Task.Dto
use go_fiber_starter.Task.Dto.{CreateRequest, UpdateRequest, to_response, to_responses}
use go_fiber_starter.Task.Repository.{Repository}
use go_fiber_starter.Task.Repository.Contract.{IsRepository}
use go_fiber_starter.Task.Service
use go_fiber_starter.Task.Service.{mutate}
use go_fiber_starter.Task.Service.Outcome.{
  both, create_effect, get_effect, update_effect, delete_effect,
}
use go_fiber_starter.Task.Handler.{Binder, parse_id, created_task, one_task, page_of_tasks, nothing}
use go_fiber_starter.Task.Routes.{Operation, create, list, get, update, delete, run}
use go_fiber_starter.Task.Routes.Faults.{run-Fault}
use go_fiber_starter.Task.Routes.Spec.Lookups.{
  find_row-Below, IsDescending-find_row, All-window, IsDescending-window,
}
use go_fiber_starter.Task.Routes.Plain.{
  data_reply, empty_reply, to_response-Shows, to_responses-ShowsAll, mutate-Changes,
}
use go_fiber_starter.Task.Routes.Spec.{
  Spec, view, Same, put, refused, added, shown, listed, changed, removed,
}

created_task_ok :
    (r : Result GoError Dto.Response) (x : Response Payload)
    → created_task r ≡ ok x
    → (a : Dto.Response) × (r ≡ ok a) × (x ≡ data_reply 201 (task a) none)
unfolding created
created_task_ok (ok a) x h = (a, refl, cc)
created_task_ok (err e) x h = cc

one_task_ok :
    (r : Result GoError Dto.Response) (x : Response Payload)
    → one_task r ≡ ok x
    → (a : Dto.Response) × (r ≡ ok a) × (x ≡ data_reply 200 (task a) none)
unfolding success
one_task_ok (ok a) x h = (a, refl, cc)
one_task_ok (err e) x h = cc

nothing_ok :
    (r : Result GoError (Unit {0})) (x : Response Payload)
    → nothing r ≡ ok x
    → (r ≡ ok tt) × (x ≡ empty_reply)
unfolding no_content
nothing_ok (ok u) x h = (refl, cc)
nothing_ok (err e) x h = cc

page_ok :
    (r : Result GoError (List Dto.Response × PageMeta)) (x : Response Payload)
    → page_of_tasks r ≡ ok x
    → (items : List Dto.Response) × (meta : PageMeta) × (r ≡ ok (items, meta))
      × (x ≡ data_reply 200 (tasks items) (some meta))
unfolding success_with_meta
page_ok (ok (items, meta)) x h = (items, meta, refl, cc)
page_ok (err e) x h = cc

set-view :
    (i j : ℕ) (t t' : Task) (ts : List Task)
    → find_row i ts ≡ some t
    → t'.id ≡ i
    → find_row j (set_row t' ts) ≡ put t' (λ k. find_row k ts) j
set-view i j t t' ts found key = elim (Bool-cases (t'.id == j)) [
  | inl y ↦ let same : j ≡ i = ground arith in rw find_row-set_row (rw y (rw (same, found) refl))
  | inr n ↦ rw find_row-set_row (rw n refl)
]

module _ {S : Type 0} (repo : Repository S) (rows : S → List Task)
    (laws : IsRepository rows repo) where
  view-Same : (s s' : S) → rows s' ≡ rows s → Same (view rows s) (view rows s')
  view-Same s s' e i = ap (find_row i) e

  list_effect :
      (page limit : ℤ) (items : List Dto.Response) (meta : PageMeta) (s : S)
      → Service.list repo page limit s ≡ ok (items, meta)
      → IsDescending (rows s)
      → (ts : List Task) × (items ≡ to_responses ts)
        × IsDescending ts
        × All (λ t. view rows s t.id ≡ some t) ts
  unfolding Service.list
  list_effect page limit items meta s h order =
      let q = new_page_query page limit in
      elim (Result-cases (repo.list q s)) [
        | inr (x, failed) ↦ let no = rw failed at h in cc
        | inl ((ts, n), done) ↦
            let (taken, counted) = laws.list_ok q ts n s done in
            let (m, fine) = new_page_meta-total page limit n in
            let same = rw (done, fine) at h in
            let items_of : items ≡ to_responses ts = cc in
            (
              ts,
              items_of,
              rw taken (IsDescending-window q.limit (offset q) (rows s) order),
              rw taken (
                  All-window (λ t. view rows s t.id ≡ some t) q.limit (offset q) (rows s)
                    (IsDescending-find_row (rows s) order)),
            )
      ]

  module _ (binder : Binder) where
    abbrev At : Operation → Request → Response Payload → S → S → Type 0
    At op c x s s' = Spec binder op c (view rows s) (ok x) (view rows s')

    create-Spec :
        (c : Request) (req : CreateRequest) (x : Response Payload) (s : S)
        → binder.create_request c ≡ ok req
        → created_task (Service.create repo req s).0 ≡ ok x
        → At create c x s (Service.create repo req s).1
    unfolding find_row
    create-Spec c req x s b h =
        let (a, stored, answer) = created_task_ok _ x h in
        let (t, same, (row, kept, add), title, done, due, above) =
          create_effect repo rows laws req a s _ (both stored refl) in
        added req t row a refl b (record { title = title; done = done; due_date = due }) kept
          (rw kept.id (find_row-Below t.id (rows s) above)) (rw same (to_response-Shows t))
          (ap ok answer) (λ i. ap (find_row i) add)

    update-Spec :
        (c : Request) (i : ℕ) (req : UpdateRequest) (x : Response Payload) (s : S)
        → parse_id c.param_id ≡ ok i
        → binder.update_request c ≡ ok req
        → one_task (Service.update repo i req s).0 ≡ ok x
        → At update c x s (Service.update repo i req s).1
    update-Spec c i req x s p b h =
        let (a, stored, answer) = one_task_ok _ x h in
        let (t, t', found, touched, same, (row, kept, set)) =
          update_effect repo rows laws i req a s _ (both stored refl) in
        let changes = mutate-Changes req t t' touched in
        let key : row.id ≡ i = kept.id ∙ changes.id ∙ find_row-id i t (rows s) found in
        changed i req t t' row a refl p b found changes kept key (rw same (to_response-Shows t'))
          (ap ok answer) (λ j. ap (find_row j) set ∙ set-view i j t row (rows s) found key)

    delete-Spec :
        (c : Request) (i : ℕ) (x : Response Payload) (s : S)
        → parse_id c.param_id ≡ ok i
        → nothing (Service.delete repo i s).0 ≡ ok x
        → At delete c x s (Service.delete repo i s).1
    delete-Spec c i x s p h =
        let (gone, answer) = nothing_ok _ x h in
        let (t, found, remove) = delete_effect repo rows laws i s _ (both gone refl) in
        removed i t refl p found (ap ok answer)
          (λ j. ap (find_row j) remove ∙ find_row-remove_row j i (rows s))

    pub run-ok :
        (op : Operation) (c : Request) (x : Response Payload) (s : S)
        → IsDescending (rows s)
        → (run binder repo op c s).0 ≡ ok x
        → At op c x s (run binder repo op c s).1
    unfolding run
    run-ok create c x s order h = elim (Result-cases (binder.create_request c)) [
      | inl (req, b) ↦ rw b (create-Spec c req x s b (rw b at h))
      | inr (e, b) ↦ let no = rw b at h in cc
    ]
    run-ok list c x s order h =
        let (items, meta, answered, answer) = page_ok _ x h in
        let (ts, same, falling, stored) = list_effect _ _ items meta s answered order in
        listed ts items meta refl stored falling (rw same (to_responses-ShowsAll ts)) (ap ok answer)
          (λ i. refl)
    run-ok get c x s order h = elim (Result-cases (parse_id c.param_id)) [
      | inl (i, p) ↦
          let (a, read, answer) = one_task_ok _ x (rw p at h) in
          let (t, same, found) = get_effect repo rows laws i a s read in
          rw p (shown i t a refl p found (rw same (to_response-Shows t)) (ap ok answer) (λ j. refl))
      | inr (e, p) ↦ let no = rw p at h in cc
    ]
    run-ok update c x s order h = elim (Result-cases (parse_id c.param_id)) [
      | inl (i, p) ↦ elim (Result-cases (binder.update_request c)) [
        | inl (req, b) ↦ rw (p, b) (update-Spec c i req x s p b (rw (p, b) at h))
        | inr (e, b) ↦ let no = rw (p, b) at h in cc
      ]
      | inr (e, p) ↦ let no = rw p at h in cc
    ]
    run-ok delete c x s order h = elim (Result-cases (parse_id c.param_id)) [
      | inl (i, p) ↦ rw p (delete-Spec c i x s p (rw p at h))
      | inr (e, p) ↦ let no = rw p at h in cc
    ]

    -- The task API, over a repository that keeps the contract and rows in the order of their keys,
    -- refines a map from keys to tasks. A creation adds one task under a new key, with the title and
    -- the due date of the body, and answers with it, field by field, and 201; a read shows the task
    -- under the key of the path, a listing tasks of the map, and an update changes that task by the
    -- members that the body gives alone, and answers with it, each with 200; a deletion removes it,
    -- with an empty 204. Else the request is refused with an error that leaves the map as it was. A
    -- row may keep the times in another precision than the answer.
    pub run-Spec :
        (op : Operation) (c : Request) (s : S)
        → IsDescending (rows s)
        → Spec binder op c
            (view rows s)
            (run binder repo op c s).0
            (view rows (run binder repo op c s).1)
    run-Spec op c s order = elim (Result-cases (run binder repo op c s).0) [
      | inl (x, e) ↦ rw e (run-ok op c x s order e)
      | inr (x, e) ↦
          let (kept, why) = run-Fault binder repo rows laws op c x s e in
          refused x e why (view-Same s _ kept)
    ]

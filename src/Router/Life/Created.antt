-- ===== src/Router/Life/Created.antt =====
-- From the creation of a task to its reading, over the life of a service.
use go_fiber_starter.Prelude.{
  ℕ, ◌≡◌, ◌↔◌, false, refl, sym, ap, ◌∙◌, ◌⊎◌, inl, inr, some, none, List, [], ok, Result, Option,
  Bool-cases, Option-cases, leb, arith, if◌then◌else◌,
}
use go_fiber_starter.Apperror.{GoError, find_fiber, as_app_error, status}
use go_fiber_starter.Fiber.{Request, Response, Identity, Envelope, envelope, empty, object, raw}
use go_fiber_starter.Httpx.{success, error_body}
use go_fiber_starter.Log.{Entry}
use go_fiber_starter.World.{World}
use go_fiber_starter.Config.{Config}
use go_fiber_starter.Payload.{Payload, task}
use go_fiber_starter.Router.ErrorHandler.{answer, error_handler}
use go_fiber_starter.Task.Model.{Task, find_row}
use go_fiber_starter.Task.Dto
use go_fiber_starter.Task.Dto.{CreateRequest, to_response}
use go_fiber_starter.Task.Gorm.{Stored}
use go_fiber_starter.Task.Routes.Plain.{Shows, data_reply}
use go_fiber_starter.Task.Repository.Contract.{IsRepository, IsReadable}
use go_fiber_starter.Task.Service.Lookup.{get_row}
use go_fiber_starter.Task.Handler.{Binder, Validates, parse_id}
use go_fiber_starter.Task.Routes
use go_fiber_starter.Task.Routes.{Operation, run}
use go_fiber_starter.Task.Routes.Effects.{IsTable, run-IsTable}
use go_fiber_starter.Task.Routes.Spec.{
  Store, Spec, IsNew, view, put, refused, added, shown, listed, changed, removed,
}
use go_fiber_starter.Task.Routes.Spec.Refines.{run-Spec}
use go_fiber_starter.Router.Chain
use go_fiber_starter.Router.Chain.{Parts, Endpoint, serve}
use go_fiber_starter.Router.Chain.Handled.{IsRefused, IsHandled, serve-IsHandled}
use go_fiber_starter.Router.Life.{Reach}
use go_fiber_starter.Router.Life.Untouched.{Spares, Reach-Spares}

-- What is under `data` of the envelope of a success.
abbrev data_of : Envelope Payload → Option Payload
data_of e = if e.success then e.payload else none

abbrev payload_of : Response Payload → Option Payload
payload_of x = elim x.body [
  | empty ↦ none
  | envelope e ↦ data_of e
  | object fields ↦ none
  | raw kind text ↦ none
]

-- An error is not answered with data.
error-payload_of :
    (c : Request) (e : GoError) (logs : List Entry)
    → payload_of (error_handler Payload c e logs).0 ≡ none
unfolding error_handler error_body
error-payload_of c e logs = elim (Option-cases (find_fiber e)) [
  | inr (fe, n) ↦ rw n refl
  | inl n ↦ elim (Bool-cases (leb 500 (status (as_app_error e)))) [
    | inl big ↦ rw (n, big) refl
    | inr small ↦ rw (n, small) refl
  ]
]

refused-payload_of : (x : Response Payload) → IsRefused x → payload_of x ≡ none
unfolding error_body
refused-payload_of x (inl e) = rw e refl
refused-payload_of x (inr e) = rw e refl

task_inj :
    (r r' : Dto.Response) → ◌≡◌ {A = Option Payload} (some (task r)) (some (task r')) → r ≡ r'
task_inj r r' h = cc

-- What a client is told of a creation: the members of its body.
pub record IsAsked (req : CreateRequest) (a : Dto.Response) : Type 0 where
  pub title : a.title ≡ req.title
  pub done : a.done ≡ false
  pub due_date : a.due_date ≡ req.due_date

-- What it reads later: the same task, with times as precise as the columns keep them.
pub record Resembles (a b : Dto.Response) : Type 0 where
  pub id : b.id ≡ a.id
  pub title : b.title ≡ a.title
  pub done : b.done ≡ a.done
  pub due_date : (b.due_date ≡ none) ↔ (a.due_date ≡ none)

-- A creation that is answered with a task has stored a row for it.
record IsStored (binder : Binder) (c : Request) (m : Store) (a : Dto.Response) : Type 0 where
  req : CreateRequest
  t : Task
  row : Task
  bound : binder.create_request c ≡ ok req
  new : IsNew req t
  shows : Shows t a
  stored : Stored t row
  there : m row.id ≡ some row

answered-IsStored :
    (binder : Binder) (c d : Request) (m m' : Store) (x : Result GoError (Response Payload))
    (a : Dto.Response)
    → Spec binder Routes.create c m x m'
    → (answer Payload d x []).0 ≡ data_reply 201 (task a) none
    → IsStored binder c m' a
unfolding answer
answered-IsStored binder c d m m' x a (refused e is why same) h =
    let same_data = sym (error-payload_of d e []) ∙ ap payload_of (rw is at h) in cc
answered-IsStored binder c d m m' x a (added req t row a' op b input kept free shows is same) h =
    let told : a' ≡ a = task_inj a' a (ap payload_of (rw is at h)) in
    let own : put row m row.id ≡ some row = ground arith in
    record {
      req = req;
      t = t;
      row = row;
      bound = b;
      new = input;
      shows = rw (← told) shows;
      stored = kept;
      there = same row.id ∙ own;
    }
answered-IsStored binder c d m m' x a (shown i t a' op p found shows is same) h = cc
answered-IsStored binder c d m m' x a (listed ts answers meta op stored falling shows is same) h =
    cc
answered-IsStored binder c d m m' x a
      (changed i req t t' row a' op p b found changes kept key shows is same) h =
    cc
answered-IsStored binder c d m m' x a (removed i t op p found is same) h = cc

IsRefused-told :
    (a : Dto.Response) (x : Response Payload) → IsRefused x → ¬ (x ≡ data_reply 201 (task a) none)
IsRefused-told a x why e = let same = sym (refused-payload_of x why) ∙ ap payload_of e in cc

Stored-Resembles :
    (t row : Task) (a : Dto.Response) → Shows t a → Stored t row → Resembles a (to_response row)
unfolding to_response
Stored-Resembles t row a shows kept = record {
  id = kept.id ∙ sym shows.id;
  title = kept.title ∙ sym shows.title;
  done = kept.done ∙ sym shows.done;
  due_date = rw shows.due_date kept.due_date;
}

module _ {L S : Type 0} (parts : Parts L S) (cfg : Config) (valid : Validates parts.binder)
    (rows : S → List Task) (laws : IsRepository rows parts.repo) where
  run-get :
      (c : Request) (i : ℕ) (t : Task) (s : S)
      → parse_id c.param_id ≡ ok i
      → IsReadable rows parts.repo s
      → find_row i (rows s) ≡ some t
      → (run parts.binder parts.repo Routes.get c s).0
        ≡ ok (data_reply 200 (task (to_response t)) none)
  unfolding run success
  run-get c i t s p up found = rw p (rw (get_row parts.repo rows laws i t s up found) refl)

  handled-IsStored :
      (c : Request) (a : Dto.Response) (w : World L S)
      → IsTable (rows w.inner)
      → (h : IsHandled parts cfg Routes.create c w)
      → (serve parts cfg (Chain.tasks Routes.create) c w).0 ≡ data_reply 201 (task a) none
      → IsTable (rows (serve parts cfg (Chain.tasks Routes.create) c w).1.inner)
        × IsStored parts.binder
            (record c { identity = h.identity })
            (view rows (serve parts cfg (Chain.tasks Routes.create) c w).1.inner)
            a
  handled-IsStored c a w sound h is =
      let known = record c { identity = h.identity } in
      (
        rw h.state
            (run-IsTable parts.binder valid parts.repo rows laws Routes.create known w.inner sound),
        rw h.state (
            answered-IsStored parts.binder known c (view rows w.inner) _ _ a
              (run-Spec parts.repo rows laws parts.binder Routes.create known w.inner
                sound.descending)
              (sym h.response ∙ is)),
      )

  read-stored :
      (c : Request) (i : ℕ) (row : Task) (w : World L S)
      → find_row i (rows w.inner) ≡ some row
      → IsReadable rows parts.repo w.inner
      → parse_id c.param_id ≡ ok i
      → ((serve parts cfg (Chain.tasks Routes.get) c w).0
          ≡ data_reply 200 (task (to_response row)) none)
        ⊎ IsRefused (serve parts cfg (Chain.tasks Routes.get) c w).0
  unfolding answer
  read-stored c i row w stored up key = elim (serve-IsHandled parts cfg Routes.get c w) [
    | inr (why, kept) ↦ inr why
    | inl h ↦
        let known = record c { identity = h.identity } in
        inl (
          h.response
          ∙ ap (λ x. (answer Payload c x []).0) (run-get known i row w.inner key up stored))
  ]

  -- A task whose creation a client was told of has the title and the due date of the body, and is
  -- not done. A later request for its key reads it with the same key, title and mark, and with a due
  -- date exactly if it has one, or the limiter or the guard refuses that request: whatever other
  -- requests the service gets in between, when none of them updates or deletes the task by its key,
  -- over a well-formed table, a validator that enforces the tags of the requests, a repository that
  -- keeps the contract and can be read then, and an exposition of the metrics that changes nothing.
  pub created_then_read :
      (metrics_reads : (c : Request) (w : World L S) → (parts.metrics c w).1 ≡ w)
      (Sent : Endpoint → Request → Type 0) (c c' : Request) (a : Dto.Response) (w w' : World L S)
      → IsTable (rows w.inner)
      → (serve parts cfg (Chain.tasks Routes.create) c w).0 ≡ data_reply 201 (task a) none
      → ((op : Operation) (d : Request) → Sent (Chain.tasks op) d → Spares a.id op d)
      → Reach parts cfg Sent (serve parts cfg (Chain.tasks Routes.create) c w).1 w'
      → IsReadable rows parts.repo w'.inner
      → parse_id c'.param_id ≡ ok a.id
      → ((identity : Option Identity) × (req : CreateRequest) × (parts.binder.create_request
              (record c { identity = identity })
            ≡ ok req)
          × IsAsked req a)
        × (((b : Dto.Response) × Resembles a b
              × ((serve parts cfg (Chain.tasks Routes.get) c' w').0 ≡ data_reply 200 (task b) none))
            ⊎ IsRefused (serve parts cfg (Chain.tasks Routes.get) c' w').0)
  created_then_read metrics_reads Sent c c' a w w' sound told spares steps up key =
      elim (serve-IsHandled parts cfg Routes.create c w) [
        | inr (why, kept) ↦ absurd (IsRefused-told a _ why told)
        | inl h ↦
            let (table, s) = handled-IsStored c a w sound h told in
            let id : a.id ≡ s.row.id = s.shows.id ∙ sym s.stored.id in
            let kept =
              Reach-Spares parts cfg valid rows laws metrics_reads Sent a.id s.row _ w' spares table
                (rw id s.there) steps in
            (
              (
                h.identity,
                s.req,
                s.bound,
                record {
                  title = s.shows.title ∙ s.new.title;
                  done = s.shows.done ∙ s.new.done;
                  due_date = s.shows.due_date ∙ s.new.due_date;
                },
              ),
              elim (read-stored c' a.id s.row w' kept up key) [
                | inl read ↦
                    inl (to_response s.row, Stored-Resembles s.t s.row a s.shows s.stored, read)
                | inr why ↦ inr why
              ],
            )
      ]

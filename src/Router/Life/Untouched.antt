-- ===== src/Router/Life/Untouched.antt =====
-- The tasks that no client names.
use go_fiber_starter.Prelude.{
  ℕ, ◌≡◌, ◌≢◌, refl, sym, ap, ◌∙◌, some, inl, inr, List, ok, Result, Bool-cases, ◌==◌, arith,
}
use go_fiber_starter.Apperror.{GoError}
use go_fiber_starter.Fiber.{Request, Response}
use go_fiber_starter.World.{World}
use go_fiber_starter.Config.{Config}
use go_fiber_starter.Payload.{Payload}
use go_fiber_starter.Task.Model.{Task, find_row}
use go_fiber_starter.Task.Repository.Contract.{IsRepository}
use go_fiber_starter.Task.Handler.{Binder, Validates, parse_id}
use go_fiber_starter.Task.Routes.{Operation, create, list, get, update, delete, run}
use go_fiber_starter.Task.Routes.Effects.{IsTable, run-IsTable}
use go_fiber_starter.Task.Routes.Spec.{
  Store, Spec, view, put, without, refused, added, shown, listed, changed, removed,
}
use go_fiber_starter.Task.Routes.Spec.Refines.{run-Spec}
use go_fiber_starter.Router.Chain.{Parts, Endpoint, tasks}
use go_fiber_starter.Router.Life.{Reach}
use go_fiber_starter.Router.Life.Keeps.{task_keeps, Reach-keeps}

-- An update or a deletion of another task, or another request.
abbrev pub Spares : ℕ → Operation → Request → Type 0
Spares i update c = parse_id c.param_id ≢ ok i
Spares i delete c = parse_id c.param_id ≢ ok i
Spares i create c = Unit
Spares i list c = Unit
Spares i get c = Unit

put_ne : (t : Task) (m : Store) (i : ℕ) → t.id ≢ i → put t m i ≡ m i
put_ne t m i other = elim (Bool-cases (t.id == i)) [
  | inl y ↦ absurd (other (ground arith))
  | inr n ↦ rw n refl
]

without_ne : (j : ℕ) (m : Store) (i : ℕ) → j ≢ i → without j m i ≡ m i
without_ne j m i other = elim (Bool-cases (j == i)) [
  | inl y ↦ absurd (other (ground arith))
  | inr n ↦ rw n refl
]

other_key :
    (i j : ℕ) (c : Request) → parse_id c.param_id ≢ ok i → parse_id c.param_id ≡ ok j → j ≢ i
other_key i j c spares parsed e = spares (parsed ∙ ap ok e)

Spec-Spares :
    (binder : Binder) (op : Operation) (c : Request) (m m' : Store)
    (r : Result GoError (Response Payload)) (i : ℕ) (t : Task)
    → Spec binder op c m r m'
    → Spares i op c
    → m i ≡ some t
    → m' i ≡ some t
Spec-Spares binder op c m m' r i t (refused e x why same) spares k = same i ∙ k
Spec-Spares binder op c m m' r i t (added req t' row a is b input kept free shows x same) spares k =
    let other : row.id ≢ i = (λ e. let no = sym free ∙ ap m e ∙ k in cc) in
    same i ∙ put_ne row m i other ∙ k
Spec-Spares binder op c m m' r i t (shown j t' a is p found shows x same) spares k = same i ∙ k
Spec-Spares binder op c m m' r i t (listed ts answers meta is stored falling shows x same) spares
      k =
    same i ∙ k
Spec-Spares binder op c m m' r i t
      (changed j req t' t'' row a is p b found changes kept key shows x same) spares k =
    let apart : parse_id c.param_id ≢ ok i = rw is at spares in
    let other : row.id ≢ i = (λ e. other_key i j c apart p (sym key ∙ e)) in
    same i ∙ put_ne row m i other ∙ k
Spec-Spares binder op c m m' r i t (removed j t' is p found x same) spares k =
    let apart : parse_id c.param_id ≢ ok i = rw is at spares in
    same i ∙ without_ne j m i (other_key i j c apart p) ∙ k

Spares-param_id :
    (i : ℕ) (op : Operation) (c c' : Request)
    → c'.param_id ≡ c.param_id
    → Spares i op c
    → Spares i op c'
Spares-param_id i update c c' same spares = λ e. spares (ap parse_id (sym same) ∙ e)
Spares-param_id i delete c c' same spares = λ e. spares (ap parse_id (sym same) ∙ e)
Spares-param_id i create c c' same spares = tt
Spares-param_id i list c c' same spares = tt
Spares-param_id i get c c' same spares = tt

module _ {L S : Type 0} (parts : Parts L S) (cfg : Config) (valid : Validates parts.binder)
    (rows : S → List Task) (laws : IsRepository rows parts.repo)
    (metrics_reads : (c : Request) (w : World L S) → (parts.metrics c w).1 ≡ w) where
  record IsThere (i : ℕ) (t : Task) (s : S) : Type 0 where
    table : IsTable (rows s)
    there : find_row i (rows s) ≡ some t

  run-IsThere :
      (i : ℕ) (t : Task) (op : Operation) (c : Request) (s : S)
      → Spares i op c
      → IsThere i t s
      → IsThere i t (run parts.binder parts.repo op c s).1
  run-IsThere i t op c s spares k = record {
    table = run-IsTable parts.binder valid parts.repo rows laws op c s k.table;
    there =
        Spec-Spares parts.binder op c (view rows s)
          (view rows (run parts.binder parts.repo op c s).1) _ i t
          (run-Spec parts.repo rows laws parts.binder op c s k.table.descending) spares k.there;
  }

  -- A task stays as it is, in every field, for as long as no client updates or deletes it by its
  -- key, whatever other requests a service gets that starts with a well-formed table, over a
  -- validator that enforces the tags of the requests, a repository that keeps the contract and an
  -- exposition of the metrics that changes nothing.
  pub Reach-Spares :
      (Sent : Endpoint → Request → Type 0) (i : ℕ) (t : Task) (w w' : World L S)
      → ((op : Operation) (c : Request) → Sent (tasks op) c → Spares i op c)
      → IsTable (rows w.inner)
      → find_row i (rows w.inner) ≡ some t
      → Reach parts cfg Sent w w'
      → find_row i (rows w'.inner) ≡ some t
  Reach-Spares Sent i t w w' spares table there r =
      (Reach-keeps parts cfg Sent (IsThere i t)
        (λ op c s sent k.
          task_keeps parts cfg (IsThere i t) cfg.auth_enabled op c s
            (λ c' same.
              run-IsThere i t op c' s (Spares-param_id i op c c' same (spares op c sent)) k)
            k)
        metrics_reads w w' r (record { table = table; there = there })).there

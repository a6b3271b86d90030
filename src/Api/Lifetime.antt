-- ===== src/Api/Lifetime.antt =====
-- The table of tasks from the start of the command of cmd/api/main.go to its end.
use go_fiber_starter.Prelude.{ℕ, ◌≡◌, refl, ap, sym, ◌∙◌, Option, List, Result, ok, true, String}
use go_fiber_starter.Prelude.Int.{ℤ}
use go_fiber_starter.Apperror.{GoError}
use go_fiber_starter.Fiber.{Request}
use go_fiber_starter.Log.{Entry}
use go_fiber_starter.World.{World}
use go_fiber_starter.Config.{Config, load}
use go_fiber_starter.Database.{auto_migrate_if_needed}
use go_fiber_starter.Database.Connection
use go_fiber_starter.Database.Connection.Connected.{new-IsConnected_iff}
use go_fiber_starter.Database.Connection.Kept.{IsKept, new-kept, auto_migrate-kept}
use go_fiber_starter.Task.Model.{Task}
use go_fiber_starter.Task.Handler.{Validates}
use go_fiber_starter.Task.Repository.Contract.{IsRepository}
use go_fiber_starter.Task.Routes.Effects.{IsTable}
use go_fiber_starter.Router.Life.{Reach}
use go_fiber_starter.Router.Chain.{Endpoint, tasks}
use go_fiber_starter.Task.Routes.{Operation}
use go_fiber_starter.Router.Life.Locked.{IsStranger, Reach-IsStranger}
use go_fiber_starter.Router.Life.Table.{Reach-IsTable}
use go_fiber_starter.Api.{Host, database_logger, parts, new_app, with_commit, main}
use go_fiber_starter.Api.Startup.{
  IsServed, misconfigured, unconnected, unmigrated, aborted, shut_down, main-Exit,
}

-- What the command expects of the outside. `rows` reads the table of tasks, and `Sent` tells which
-- requests clients send.
pub record IsHost {L P D Q : Type 0} (host : Host L P D Q) (commit : String) (rows : P → List Task)
    (Sent : Endpoint → Request → Type 0) : Type 0 where
  pub metrics_reads : (c : Request) (w : World L P) → (host.metrics c w).1 ≡ w
  pub is_kept : IsKept host.platform rows
  -- the automatic migration changes columns, and no rows
  pub migration_kept : (d : D) (models : ℕ) (p : P) → rows (host.auto_migrate d models p).1 ≡ rows p
  -- Listen serves requests with the application that it is given, and does nothing else
  pub listens :
      (cfg : Config) (d : D) (addr : String) (grace : ℤ) (w : World L P)
      → Reach
          (parts host commit d)
          cfg
          Sent
          w
          (host.listen (new_app host commit cfg d) addr grace w).1

module _ {L P D Q : Type 0} (host : Host L P D Q) (commit : String) (rows : P → List Task)
    (Sent : Endpoint → Request → Type 0) (is_host : IsHost host commit rows Sent) where
  new-rows :
      (cfg : Config) (r : Result GoError D) (p p' : P)
      → Connection.new host.platform (with_commit host commit cfg) (database_logger cfg) p ≡ (r, p')
      → rows p' ≡ rows p
  new-rows cfg r p p' made =
      sym (ap (λ x. rows x.1) made)
      ∙ new-kept host.platform rows is_host.is_kept (with_commit host commit cfg)
          (database_logger cfg) p

  migrate-rows :
      (cfg : Config) (d : D) (e : Option GoError) (p p' : P) (before logs : List Entry)
      → auto_migrate_if_needed (host.auto_migrate d) (with_commit host commit cfg) 1 p before
        ≡ (e, p', logs)
      → rows p' ≡ rows p
  migrate-rows cfg d e p p' before logs schema =
      sym (ap (λ x. rows x.1) schema)
      ∙ auto_migrate-kept rows (host.auto_migrate d) (is_host.migration_kept d)
          (with_commit host commit cfg) 1 p before

  -- What every run of a service with the loaded configuration keeps of the table, the command keeps.
  module _ (parsed : Result GoError Config) (K : List Task → Type 0)
      (life_keeps : (cfg : Config) (d : D) (w w' : World L P)
        → load parsed ≡ ok cfg
        → Reach (parts host commit d) (with_commit host commit cfg) Sent w w'
        → K (rows w.inner)
        → K (rows w'.inner)) where
    listened-keeps :
        (cfg : Config) (d : D) (addr : String) (grace : ℤ) (w : World L P) (e : Option GoError)
        (w' : World L P)
        → load parsed ≡ ok cfg
        → host.listen (new_app host commit (with_commit host commit cfg) d) addr grace w ≡ (e, w')
        → K (rows w.inner)
        → K (rows w'.inner)
    listened-keeps cfg d addr grace w e w' loaded listened k =
        let full = with_commit host commit cfg in
        let left : (host.listen (new_app host commit full d) addr grace w).1 ≡ w' =
          ap (λ x. x.1) listened in
        let last =
          life_keeps cfg d w (host.listen (new_app host commit full d) addr grace w).1 loaded
            (is_host.listens full d addr grace w) k in
        rw left at last

    served-keeps :
        (cfg : Config) (p : P) (q : Q) (e : Option GoError) (w : World L P)
        → load parsed ≡ ok cfg
        → IsServed host commit cfg p q e w
        → K (rows p)
        → K (rows (host.platform.close q w.inner).1)
    served-keeps cfg p q e w loaded s k =
        let full = with_commit host commit cfg in
        let connected =
          (new-IsConnected_iff host.platform full (database_logger cfg) p s.d s.p1).1
            s.is_connected in
        let same : rows s.p2 ≡ rows p =
          migrate-rows cfg s.d _ s.p1 s.p2 _ s.entries s.has_schema
          ∙ new-rows cfg _ p s.p1 connected in
        rw (is_host.is_kept.close q w.inner)
          (listened-keeps cfg s.d _ _ _ e w loaded s.listened (rw same k))

    pub main-keeps : (p : P) → K (rows p) → K (rows (main host commit (load parsed) p).1)
    main-keeps p k = elim (main-Exit host commit parsed p) [
      | misconfigured e refused r ↦ rw (ap (λ x. rows x.1) r) k
      | unconnected cfg e p' loaded failed r ↦
          rw (ap (λ x. rows x.1) r) (rw (new-rows cfg _ p p' failed) k)
      | unmigrated cfg d q e p1 p2 entries loaded made pool schema r ↦
          let connected =
            (new-IsConnected_iff host.platform (with_commit host commit cfg) (database_logger cfg) p
                d p1).1
              made in
          rw (ap (λ x. rows x.1) r) (
            rw
              (is_host.is_kept.close q p2
                ∙ migrate-rows cfg d _ p1 p2 _ entries schema
                ∙ new-rows cfg _ p p1 connected)
              k)
      | aborted cfg q e w loaded served r ↦
          rw (ap (λ x. rows x.1) r) (served-keeps cfg p q _ w loaded served k)
      | shut_down cfg q w loaded served r ↦
          rw (ap (λ x. rows x.1) r) (served-keeps cfg p q _ w loaded served k)
    ]

  -- Whatever requests the command has served and however it ends, the table of tasks is well formed
  -- at the end, if it was so at the start, the validator enforces the tags of the requests, the
  -- repositories keep the contract, and the host behaves as documented.
  pub main-IsTable :
      (parsed : Result GoError Config) (p : P)
      → Validates host.binder
      → ((d : D) → IsRepository rows (host.repo d))
      → IsTable (rows p)
      → IsTable (rows (main host commit (load parsed) p).1)
  unfolding parts
  main-IsTable parsed p validates contract table =
      main-keeps parsed IsTable
        (λ cfg d w w' loaded life k.
          Reach-IsTable (parts host commit d) (with_commit host commit cfg) validates rows
            (contract d) is_host.metrics_reads Sent w w' life k)
        p table

  -- If the loaded configuration has authentication on, and no client sends the task API a token that
  -- the service accepts, the command leaves the rows of the table as they were, whatever requests it serves and
  -- however it ends, on a host that behaves as documented.
  pub main-IsStranger :
      (parsed : Result GoError Config) (p : P)
      → ((cfg : Config) → load parsed ≡ ok cfg → cfg.auth_enabled ≡ true)
      → ((cfg : Config) (d : D) (op : Operation) (c : Request)
          → load parsed ≡ ok cfg
          → Sent (tasks op) c
          → IsStranger (parts host commit d) (with_commit host commit cfg) c)
      → rows (main host commit (load parsed) p).1 ≡ rows p
  unfolding parts
  main-IsStranger parsed p on strangers =
      main-keeps parsed (λ ts. ts ≡ rows p)
        (λ cfg d w w' loaded life k.
          ap rows (
            Reach-IsStranger (parts host commit d) (with_commit host commit cfg) Sent w w'
              (on cfg loaded) is_host.metrics_reads (λ op c sent. strangers cfg d op c loaded sent)
              life)
          ∙ k)
        p refl

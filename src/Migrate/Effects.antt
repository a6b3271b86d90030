-- ===== src/Migrate/Effects.antt =====
-- What the command of cmd/migrate/main.go does to the database, and what it leaves and prints.
use go_fiber_starter.Prelude.{
  ◌≡◌, refl, ap, ◌⊎◌, inl, inr, some, List, [], ◌∷◌, ◌++◌, Result, ok, err, String, Bool-cases,
  Option-cases, ℕ, suc, Bool, arith,
}
use go_fiber_starter.Apperror.{GoError}
use go_fiber_starter.Prelude.Int.{ℤ, negsuc}
use go_fiber_starter.Config.{Config, LoadError}
use go_fiber_starter.Task.Handler.{atoi}
use go_fiber_starter.Migrate.{
  Library, Session, report, finished, version_result, command, open_source, opened, run, force_args,
}
use text.Mathlib.Text.{◌==◌}
use text.Mathlib.TextEquality.{eq_iff}

-- The changes that a command may make: none, all the missing versions, one version back, or a
-- version that is set.
pub data Change {F D : Type 0} (lib : Library F D) (args : List String) (d d' : D) : Type 0 where
  unchanged : d' ≡ d → Change lib args d d'
  upgraded : (rest : List String) → args ≡ "up" ∷ rest → d' ≡ (lib.up d).1 → Change lib args d d'
  one_back :
      (rest : List String)
      → args ≡ "down" ∷ rest
      → d' ≡ (lib.steps (negsuc 0) d).1
      → Change lib args d d'
  forced :
      (text : String) (v : ℤ) (rest : List String)
      → args ≡ "force" ∷ text ∷ rest
      → atoi text ≡ some v
      → d' ≡ (lib.force v d).1
      → Change lib args d d'

-- A line is printed exactly if the result is nil.
abbrev pub Tells : Result GoError (Unit {0}) → (before after : List String) → Type 0
Tells r before after =
    ((r ≡ ok tt) × ((line : String) × (after ≡ before ++ line ∷ [])))
    ⊎ (((e : GoError) × (r ≡ err e)) × (after ≡ before))

-- What comes of a command: the change, the migrators that are still open, and the line.
pub record IsRun {F D : Type 0} (lib : Library F D) (args : List String) (s : Session D)
    (r : Result GoError (Unit {0})) (s' : Session D) : Type 0 where
  pub change : Change lib args s.database s'.database
  pub none_left : s'.migrators ≡ s.migrators
  pub told : Tells r s.out s'.out

module _ {F D : Type 0} (lib : Library F D) where
  refused : (args : List String) (e : GoError) (s : Session D) → IsRun lib args s (err e) s
  refused args e s = record {
    change = unchanged refl;
    none_left = refl;
    told = inr ((e, refl), refl);
  }

  report-IsRun :
      (name : String) (args : List String) (r : Result GoError (Unit {0})) (s : Session D) (d : D)
      → Change lib args s.database d
      → IsRun lib args s
          (report lib name r (record s { database = d })).0
          (report lib name r (record s { database = d })).1
  report-IsRun name args (ok u) s d change = record {
    change = change;
    none_left = refl;
    told = inl (refl, (_, refl));
  }
  report-IsRun name args (err e) s d change = record {
    change = change;
    none_left = refl;
    told = inr ((e, refl), refl);
  }

  version-IsRun :
      (args : List String) (v : Result GoError (ℕ × Bool)) (s : Session D)
      → IsRun lib args s (version_result lib v s).0 (version_result lib v s).1
  version-IsRun args (ok v) s = record {
    change = unchanged refl;
    none_left = refl;
    told = inl (refl, (_, refl));
  }
  version-IsRun args (err e) s = refused args e s

  forced-IsRun :
      (name : String) (rest : List String) (s : Session D)
      → name ≡ "force"
      → IsRun lib (name ∷ rest) s (force_args lib rest s).0 (force_args lib rest s).1
  forced-IsRun name [] s is = refused (name ∷ []) _ s
  forced-IsRun name (text ∷ rest) s is = elim (Option-cases (atoi text)) [
    | inl e ↦ rw e (refused (name ∷ text ∷ rest) _ s)
    | inr (v, e) ↦ rw e (
        report-IsRun "force" (name ∷ text ∷ rest) (finished (lib.force v s.database).0) s
          (lib.force v s.database).1 (forced text v rest (ap (λ n. n ∷ text ∷ rest) is) e refl))
  ]

  command-IsRun :
      (args : List String) (s : Session D)
      → IsRun lib args s (command lib args s).0 (command lib args s).1
  unfolding command
  command-IsRun [] s = refused [] _ s
  command-IsRun (name ∷ rest) s = elim (Bool-cases (name == "up")) [
    | inl up ↦ rw up (
        report-IsRun name (name ∷ rest) (finished (lib.up s.database).0) s (lib.up s.database).1
          (upgraded rest (ap (λ n. n ∷ rest) ((eq_iff name "up").0 up)) refl))
    | inr not_up ↦ elim (Bool-cases (name == "down")) [
      | inl down ↦
          let stepped = lib.steps (negsuc 0) s.database in
          rw (not_up, down)
            (report-IsRun name (name ∷ rest) (finished stepped.0) s stepped.1
              (one_back rest (ap (λ n. n ∷ rest) ((eq_iff name "down").0 down)) refl))
      | inr not_down ↦ elim (Bool-cases (name == "version")) [
        | inl version ↦
            rw (not_up, not_down, version) (version-IsRun (name ∷ rest) (lib.version s.database) s)
        | inr no_version ↦ elim (Bool-cases (name == "force")) [
          | inl force ↦
              rw (not_up, not_down, no_version, force)
                (forced-IsRun name rest s ((eq_iff name "force").0 force))
          | inr unknown ↦ rw (not_up, not_down, no_version, unknown) (refused (name ∷ rest) _ s)
        ]
      ]
    ]
  ]

  opened-IsRun :
      (r : Result GoError (Unit {0})) (args : List String) (s : Session D)
      → IsRun lib args s (opened lib r args s).0 (opened lib r args s).1
  opened-IsRun (ok u) args s =
      let ran = command-IsRun args (record s { migrators = suc s.migrators }) in
      record { change = ran.change; none_left = omega (arith, ran.none_left); told = ran.told }
  opened-IsRun (err e) args s = refused args e s

  -- The command changes the database in one way at most, by its first argument: `up` applies what is
  -- missing, `down` goes one version back, `force` sets the version that it is given as a number, and
  -- everything else, with a failed start before it, changes nothing. However it ends, the migrator
  -- that it opens is closed, and it prints one line on its output exactly if it returns nil.
  pub run-IsRun :
      (loaded : Result LoadError Config) (args : List String) (s : Session D)
      → IsRun lib args s (run lib loaded args s).0 (run lib loaded args s).1
  unfolding run
  run-IsRun (ok cfg) args s = opened-IsRun (open_source lib cfg s.database) args s
  run-IsRun (err e) args s = refused args _ s

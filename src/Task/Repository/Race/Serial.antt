-- ===== src/Task/Repository/Race/Serial.antt =====
-- Updates at the same time, one after the other.
use go_fiber_starter.Prelude.{
  ℕ, ◌≡◌, ◌≢◌, refl, sym, ap, ◌∙◌, inl, inr, true, Option, none, some, List, [], ◌∷◌, Bool-cases,
  ◌==◌, arith, ◌⊎◌,
}
use text.Mathlib.Text
use text.Mathlib.TextEquality.{eq_iff}
use go_fiber_starter.Task.Model.{Task}
use go_fiber_starter.Task.Gorm.{Gorm, Touched}
use go_fiber_starter.Task.Repository.{apply_row_lock}
use go_fiber_starter.Task.Repository.Race.{
  Phase, begun, loaded, committed, rolled_back, Row, set_phase, Step, read, save, roll_back, Run,
  nothing, and_then,
}

-- The row after the updates of the list, the last one first.
pub data Serial (mutate : ℕ → Task → Task) (t : Task) : List ℕ → Task → Type 0 where
  untouched : Serial mutate t [] t
  update :
      {cs : List ℕ} {t' : Task} (c : ℕ) (t'' : Task)
      → Serial mutate t cs t'
      → Touched (mutate c t') t''
      → Serial mutate t (c ∷ cs) t''

abbrev pub Within : ℕ → List ℕ → Type 0
Within c [] = ⊥
Within c (d ∷ ds) = (c ≡ d) ⊎ Within c ds

-- Each update of the list stands in it once.
abbrev pub IsOnce : List ℕ → Type 0
IsOnce [] = Unit
IsOnce (c ∷ cs) = ¬ (Within c cs) × IsOnce cs

-- The updates in the order of their commits: the row is what they make of the first one, one after
-- the other, and the committed transactions are theirs.
pub record IsSerial (mutate : ℕ → Task → Task) (t : Task) (r : Row) : Type 0 where
  pub order : List ℕ
  pub serial : Serial mutate t order r.task
  pub once : IsOnce order
  pub none_lost : (c : ℕ) → r.phase c ≡ committed → Within c order
  pub none_made_up : (c : ℕ) → Within c order → r.phase c ≡ committed
  -- a transaction that has read the row holds its lock, and the row is as it read it
  pub locked : (c : ℕ) (t' : Task) → r.phase c ≡ loaded t' → (r.lock ≡ some c) × (t' ≡ r.task)

set_phase_cases :
    (c d : ℕ) (new : Phase) (old : ℕ → Phase)
    → ((d ≡ c) × (set_phase c new old d ≡ new)) ⊎ ((d ≢ c) × (set_phase c new old d ≡ old d))
set_phase_cases c d new old = elim (Bool-cases (d == c)) [
  | inl y ↦ (let same : d ≡ c = ground arith in inl (same, rw y refl))
  | inr n ↦ (let other : d ≢ c = (λ e. ground arith) in inr (other, rw n refl))
]

loaded_inj : (t t' : Task) → loaded t ≡ loaded t' → t ≡ t'
loaded_inj t t' h = cc

some_inj : (c d : ℕ) → ◌≡◌ {A = Option ℕ} (some c) (some d) → c ≡ d
some_inj c d h = cc

module _ (g : Gorm) (locks : apply_row_lock g ≡ true) (mutate : ℕ → Task → Task) (t0 : Task) where
  read-IsSerial :
      (r : Row) (c : ℕ)
      → r.phase c ≡ begun
      → r.lock ≡ none
      → IsSerial mutate t0 r
      → IsSerial mutate t0 (record r { lock = some c; phase = set_phase c (loaded r.task) r.phase })
  read-IsSerial r c fresh free s = record {
    order = s.order;
    serial = s.serial;
    once = s.once;
    none_lost = λ d h. elim (set_phase_cases c d (loaded r.task) r.phase) [
      | inl (is, now) ↦ let no = sym now ∙ h in cc
      | inr (other, now) ↦ s.none_lost d (sym now ∙ h)
    ];
    none_made_up = λ d w. elim (set_phase_cases c d (loaded r.task) r.phase) [
      | inl (is, now) ↦ let no = sym fresh ∙ s.none_made_up c (rw is at w) in cc
      | inr (other, now) ↦ now ∙ s.none_made_up d w
    ];
    locked = λ d t h. elim (set_phase_cases c d (loaded r.task) r.phase) [
      | inl (is, now) ↦ (ap some (sym is), loaded_inj t r.task (sym h ∙ now))
      | inr (other, now) ↦
          let (held, same) = s.locked d t (sym now ∙ h) in let no = sym free ∙ held in cc
    ];
  }

  -- A transaction that has read the row is alone with it.
  alone :
      (r : Row) (c d : ℕ) (t t' : Task) (new : Phase)
      → IsSerial mutate t0 r
      → r.phase c ≡ loaded t
      → set_phase c new r.phase d ≡ loaded t'
      → new ≡ loaded t'
  alone r c d t t' new s mine h = elim (set_phase_cases c d new r.phase) [
    | inl (is, now) ↦ sym now ∙ h
    | inr (other, now) ↦
        let (held, same) = s.locked c t mine in
        let (held', same') = s.locked d t' (sym now ∙ h) in
        absurd (other (some_inj d c (sym held' ∙ held)))
  ]

  save-IsSerial :
      (r : Row) (c : ℕ) (t t' : Task)
      → r.phase c ≡ loaded t
      → Touched (mutate c t) t'
      → IsSerial mutate t0 r
      → IsSerial mutate t0
          (record { task = t'; lock = none; phase = set_phase c committed r.phase })
  save-IsSerial r c t t' mine touched s =
      let (held, same) = s.locked c t mine in
      record {
        order = c ∷ s.order;
        serial = update c t' s.serial (rw same at touched);
        once = ((λ w. (let no = sym mine ∙ s.none_made_up c w in cc)), s.once);
        none_lost = λ d h. elim (set_phase_cases c d committed r.phase) [
          | inl (is, now) ↦ inl is
          | inr (other, now) ↦ inr (s.none_lost d (sym now ∙ h))
        ];
        none_made_up = λ d w. elim (set_phase_cases c d committed r.phase) [
          | inl (is, now) ↦ now
          | inr (other, now) ↦ elim w [
            | inl is ↦ absurd (other is)
            | inr before ↦ now ∙ s.none_made_up d before
          ]
        ];
        locked = λ d t'' h. (let no = alone r c d t t'' committed s mine h in cc);
      }

  roll_back-IsSerial :
      (r : Row) (c : ℕ) (t : Task)
      → r.phase c ≡ loaded t
      → IsSerial mutate t0 r
      → IsSerial mutate t0 (record r { lock = none; phase = set_phase c rolled_back r.phase })
  roll_back-IsSerial r c t mine s = record {
    order = s.order;
    serial = s.serial;
    once = s.once;
    none_lost = λ d h. elim (set_phase_cases c d rolled_back r.phase) [
      | inl (is, now) ↦ let no = sym now ∙ h in cc
      | inr (other, now) ↦ s.none_lost d (sym now ∙ h)
    ];
    none_made_up = λ d w. elim (set_phase_cases c d rolled_back r.phase) [
      | inl (is, now) ↦ let no = sym mine ∙ s.none_made_up c (rw is at w) in cc
      | inr (other, now) ↦ now ∙ s.none_made_up d w
    ];
    locked = λ d t' h. (let no = alone r c d t t' rolled_back s mine h in cc);
  }

  Step-IsSerial : (r r' : Row) → Step g mutate r r' → IsSerial mutate t0 r → IsSerial mutate t0 r'
  Step-IsSerial r r' (read c fresh waits) s = rw locks (read-IsSerial r c fresh (waits locks) s)
  Step-IsSerial r r' (save c t t' mine touched) s = save-IsSerial r c t t' mine touched s
  Step-IsSerial r r' (roll_back c t mine) s = roll_back-IsSerial r c t mine s

  Run-keeps : (r r' : Row) → Run g mutate r r' → IsSerial mutate t0 r → IsSerial mutate t0 r'
  Run-keeps r r' nothing s = s
  Run-keeps r r' (and_then {r' = u} run step) s = Step-IsSerial u r' step (Run-keeps r u run s)

-- Before any transaction has begun.
abbrev pub fresh : Task → Row
fresh t = record { task = t; lock = none; phase = λ c. begun }

fresh-IsSerial : (mutate : ℕ → Task → Task) (t : Task) → IsSerial mutate t (fresh t)
fresh-IsSerial mutate t = record {
  order = [];
  serial = untouched;
  once = tt;
  none_lost = λ c h. cc;
  none_made_up = λ c w. absurd w;
  locked = λ c t' h. cc;
}

locks : (g : Gorm) → g.name ≢ "sqlite" → apply_row_lock g ≡ true
unfolding apply_row_lock
locks g other = elim (Bool-cases (Text.◌==◌ g.name "sqlite")) [
  | inl y ↦ absurd (other ((eq_iff g.name "sqlite").0 y))
  | inr n ↦ rw n refl
]

-- However the reads, the commits and the rollbacks of updates of one row interleave, with another
-- driver than sqlite, the row is what the committed updates make of it one after the other, in the
-- order of their commits: each of them counts once, and none is lost.
pub Run-IsSerial :
    (g : Gorm) (mutate : ℕ → Task → Task) (t : Task) (r : Row)
    → g.name ≢ "sqlite"
    → Run g mutate (fresh t) r
    → IsSerial mutate t r
Run-IsSerial g mutate t r other run =
    Run-keeps g (locks g other) mutate t (fresh t) r run (fresh-IsSerial mutate t)

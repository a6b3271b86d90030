-- ===== src/Filepath/Rooted.antt =====
-- Paths from the root.
use Prim.Native.String.{String, [], ◌∷◌}
use go_fiber_starter.Prelude.{
  ◌≡◌, refl, true, false, inl, inr, Bool-cases, Result, ok, Result-cases, sym, ◌∙◌,
}
use go_fiber_starter.Apperror.{GoError}
use go_fiber_starter.Prelude.Text.{◌<>◌}
use go_fiber_starter.Filepath.{clean, dir, join, abs, is_rooted}
use text.Mathlib.Text.{◌==◌}
use text.Mathlib.TextEquality.{eq_iff}
use text.Mathlib.TextLemmas.{cons-append}

pub clean-is_rooted : (s : String) → is_rooted s ≡ true → is_rooted (clean s) ≡ true
unfolding clean is_rooted
clean-is_rooted s h = rw h (rw cons-append refl)

pub dir-is_rooted : (s : String) → is_rooted s ≡ true → is_rooted (dir s) ≡ true
unfolding dir is_rooted
dir-is_rooted s h = rw h (rw cons-append refl)

append-is_rooted : (a b : String) → is_rooted a ≡ true → is_rooted (a <> b) ≡ true
unfolding is_rooted
append-is_rooted [] b h = cc
append-is_rooted (c ∷ a) b h = rw cons-append h

nonempty : (a : String) → is_rooted a ≡ true → (a == "") ≡ false
unfolding is_rooted
nonempty a h = elim (Bool-cases (a == "")) [
  | inl y ↦
      let empty : a ≡ "" = (eq_iff a "").0 y in let no : is_rooted "" ≡ true = rw empty at h in cc
  | inr n ↦ n
]

abs-clean :
    (getwd : Result GoError String) (path : String)
    → is_rooted path ≡ true
    → abs getwd path ≡ ok (clean path)
unfolding abs
abs-clean getwd path y = rw y refl

abs-below :
    (getwd : Result GoError String) (wd path : String)
    → is_rooted path ≡ false
    → getwd ≡ ok wd
    → is_rooted wd ≡ true
    → abs getwd path ≡ ok (clean (wd <> "/" <> path))
unfolding abs join
abs-below getwd wd path n e full = rw (n, e) (rw (nonempty wd full) refl)

ok_inj : {E A : Type 0} {a b : A} → ◌≡◌ {A = Result E A} (ok a) (ok b) → a ≡ b
ok_inj h = cc

-- A path that filepath.Abs returns begins at the root, as those of os.Getwd do.
pub abs-is_rooted :
    (getwd : Result GoError String) (path r : String)
    → ((wd : String) → getwd ≡ ok wd → is_rooted wd ≡ true)
    → abs getwd path ≡ ok r
    → is_rooted r ≡ true
unfolding abs join
abs-is_rooted getwd path r rooted h = elim (Bool-cases (is_rooted path)) [
  | inl y ↦
      let same : clean path ≡ r = ok_inj (sym (abs-clean getwd path y) ∙ h) in
      rw (← same) (clean-is_rooted path y)
  | inr n ↦ elim (Result-cases getwd) [
    | inl (wd, e) ↦
        let full : is_rooted wd ≡ true = rooted wd e in
        let same : clean (wd <> "/" <> path) ≡ r =
          ok_inj (sym (abs-below getwd wd path n e full) ∙ h) in
        rw (← same) (clean-is_rooted (wd <> "/" <> path) (append-is_rooted wd _ full))
    | inr (x, e) ↦ let no = rw (n, e) at h in cc
  ]
]

-- ===== src/Config/Checks.antt =====
-- Rows of checks, and the tests of which the checks of internal/config/config.go are made.
use go_fiber_starter.Prelude.{
  ◌≡◌, ◌≢◌, ◌↔◌, ◌⊎◌, inl, inr, refl, Bool, true, false, not, ◌&&◌, ◌||◌, List, [], ◌∷◌, ◌++◌,
  String, All, Bool-cases, if◌then◌else◌,
}
use go_fiber_starter.Net.{codes}
use go_fiber_starter.Lowercase.{lower_codes, lower_is, lower_is_iff}
use go_fiber_starter.Config.{Problem, found, contains}
use text.Mathlib.Text.{◌==◌}
use text.Mathlib.TextEquality.{eq_iff}

-- A row of checks finds nothing if each test fails.
pub found-nil :
    (checks : List (Bool × Problem))
    → (found checks ≡ []) ↔ All (λ (check : Bool × Problem). check.0 ≡ false) checks
unfolding found
found-nil [] = ((λ h. tt), (λ h. refl))
found-nil ((true, p) ∷ checks) = ((λ h. cc), (λ h. cc (h.0)))
found-nil ((false, p) ∷ checks) =
    let (to, from) = found-nil checks in ((λ h. (refl, to h)), (λ h. from (h.1)))

abbrev pub Passed : List (Bool × Problem) → Type 0
Passed checks = All (λ (check : Bool × Problem). check.0 ≡ false) checks

pub Passed-append : (xs ys : List (Bool × Problem)) → Passed (xs ++ ys) ↔ (Passed xs × Passed ys)
Passed-append [] ys = ((λ h. (tt, h)), (λ h. h.1))
Passed-append (x ∷ xs) ys =
    let (to, from) = Passed-append xs ys in
    ((λ (h, rest). (let (l, r) = to rest in ((h, l), r))), (λ ((h, l), r). (h, from (l, r))))

-- A test of two texts that fails.
pub ne_iff : (s t : String) → ((s == t) ≡ false) ↔ (s ≢ t)
ne_iff s t = (
  (λ h e. (let y = (eq_iff s t).1 e in cc)),
  (λ h. elim (Bool-cases (s == t)) [ inl y ↦ absurd (h ((eq_iff s t).0 y)) | inr n ↦ n ]),
)

pub or_iff :
    {P Q : Type 0} (a b : Bool) → ((a ≡ true) ↔ P) → ((b ≡ true) ↔ Q) → ((a || b) ≡ true) ↔ (P ⊎ Q)
or_iff true b (to, from) q = ((λ h. inl (to refl)), (λ h. refl))
or_iff false b (to, from) (to', from') =
    ((λ h. inr (to' h)), (λ h. elim h [ inl x ↦ (let bad = from x in cc) | inr y ↦ from' y ]))

pub not_iff : {P : Type 0} (a : Bool) → ((a ≡ true) ↔ P) → (not a ≡ false) ↔ P
not_iff true (to, from) = ((λ h. to refl), (λ h. refl))
not_iff false (to, from) = ((λ h. cc), (λ h. (let bad = from h in cc)))

-- Two tests that both fail.
pub nor_iff :
    {P Q : Type 0} (a b : Bool)
    → ((a ≡ false) ↔ P)
    → ((b ≡ false) ↔ Q)
    → ((a || b) ≡ false) ↔ (P × Q)
nor_iff true b (to, from) q = ((λ h. cc), (λ h. (let bad = from h.0 in cc)))
nor_iff false b (to, from) (to', from') = ((λ h. (to refl, to' h)), (λ h. from' h.1))

-- A text that is one of three.
pub one_of_three_iff :
    (s x y z : String)
    → (not (s == x || (s == y || s == z)) ≡ false) ↔ ((s ≡ x) ⊎ (s ≡ y) ⊎ (s ≡ z))
one_of_three_iff s x y z =
    not_iff _ (or_iff _ _ (eq_iff s x) (or_iff _ _ (eq_iff s y) (eq_iff s z)))

pub level_iff :
    (s : String)
    → (not (lower_is "debug" s || (lower_is "info" s || (lower_is "warn" s || lower_is "error" s)))
        ≡ false)
      ↔ ((lower_codes s ≡ codes "debug")
          ⊎ (lower_codes s ≡ codes "info")
          ⊎ (lower_codes s ≡ codes "warn")
          ⊎ (lower_codes s ≡ codes "error"))
level_iff s = not_iff _ (
    or_iff _ _ (lower_is_iff "debug" s) (
      or_iff _ _ (lower_is_iff "info" s)
        (or_iff _ _ (lower_is_iff "warn" s) (lower_is_iff "error" s))))

-- Two tests that are not both true.
pub nand_iff :
    {P Q : Type 0} (a b : Bool)
    → ((a ≡ false) ↔ P)
    → ((b ≡ false) ↔ Q)
    → ((a && b) ≡ false) ↔ (P ⊎ Q)
nand_iff false b (to, from) q = ((λ h. inl (to refl)), (λ h. refl))
nand_iff true b (to, from) (to', from') =
    ((λ h. inr (to' h)), (λ h. elim h [ inl x ↦ (let bad = from x in cc) | inr y ↦ from' y ]))

pub contains_iff : (s : String) (xs : List String) → (contains s xs ≡ false) ↔ All (λ x. x ≢ s) xs
contains_iff s [] = ((λ h. tt), (λ h. refl))
contains_iff s (x ∷ xs) = nor_iff (x == s) (contains s xs) (ne_iff x s) (contains_iff s xs)

pub if_iff :
    {P : Type 0} (b : Bool) (checks : List (Bool × Problem))
    → (Passed checks ↔ P)
    → Passed (if b then checks else []) ↔ ((b ≡ false) ⊎ P)
if_iff true checks (to, from) =
    ((λ h. inr (to h)), (λ h. elim h [ inl n ↦ (let bad : ⊥ = cc in absurd bad) | inr v ↦ from v ]))
if_iff false checks p = ((λ h. inl refl), (λ h. tt))

pub both_iff :
    {P Q : Type 0} (xs ys : List (Bool × Problem))
    → (Passed xs ↔ P)
    → (Passed ys ↔ Q)
    → Passed (xs ++ ys) ↔ (P × Q)
both_iff xs ys (to, from) (to', from') =
    let (split, join) = Passed-append xs ys in
    ((λ h. (let (l, r) = split h in (to l, to' r))), (λ (p, q). join (from p, from' q)))

-- ===== src/Task/Model/Rows.antt =====
-- Laws of the table of tasks: lookups after each change, and the order of the keys.
use go_fiber_starter.Prelude.{
  ℕ, ◌<◌, ◌≡◌, refl, none, some, List, [], ◌∷◌, All, ◌==◌, if◌then◌else◌, arith, inl, inr,
  Bool-cases,
}
use go_fiber_starter.Task.Model.{Task, find_row, set_row, remove_row}

-- A lookup after a replacement: the new row at its own key, if a row was there.
pub find_row-set_row :
    (i : ℕ) (r : Task) (ts : List Task)
    → find_row i (set_row r ts) ≡ (
        if r.id == i
        then (elim (find_row i ts) [ none ↦ none | some old ↦ some r ])
        else find_row i ts)
unfolding find_row set_row
find_row-set_row i r [] = ground arith
find_row-set_row i r (t ∷ ts) = ground (arith, find_row-set_row i r ts)

-- A lookup after a removal.
pub find_row-remove_row :
    (i j : ℕ) (ts : List Task)
    → find_row i (remove_row j ts) ≡ (if j == i then none else find_row i ts)
unfolding find_row remove_row
find_row-remove_row i j [] = ground arith
find_row-remove_row i j (t ∷ ts) = ground (arith, find_row-remove_row i j ts)

pub remove_row-none : (i : ℕ) (ts : List Task) → find_row i ts ≡ none → remove_row i ts ≡ ts
unfolding find_row remove_row
remove_row-none i [] h = refl
remove_row-none i (t ∷ ts) h = ground (arith, remove_row-none i ts)

pub find_row-id : (i : ℕ) (t : Task) (ts : List Task) → find_row i ts ≡ some t → t.id ≡ i
unfolding find_row
find_row-id i t [] h = cc
find_row-id i t (r ∷ ts) h = ground (arith, find_row-id i t ts)

module _ (P : Task → Type 0) where
  pub All-find_row : (i : ℕ) (t : Task) (ts : List Task) → All P ts → find_row i ts ≡ some t → P t
  unfolding find_row
  All-find_row i t [] a h = cc
  All-find_row i t (r ∷ ts) (p, a) h = elim (Bool-cases (r.id == i)) [
    | inl e ↦ (let same : r ≡ t = ground arith in rw (← same) p)
    | inr e ↦ All-find_row i t ts a (ground arith)
  ]

  pub All-set_row : (r : Task) (ts : List Task) → All P ts → P r → All P (set_row r ts)
  unfolding set_row
  All-set_row r [] a p = tt
  All-set_row r (t ∷ ts) (q, a) p = elim (Bool-cases (t.id == r.id)) [
    | inl e ↦ rw e (p, All-set_row r ts a p)
    | inr e ↦ rw e (q, All-set_row r ts a p)
  ]

  pub All-remove_row : (i : ℕ) (ts : List Task) → All P ts → All P (remove_row i ts)
  unfolding remove_row
  All-remove_row i [] a = tt
  All-remove_row i (t ∷ ts) (q, a) = elim (Bool-cases (t.id == i)) [
    | inl e ↦ rw e (All-remove_row i ts a)
    | inr e ↦ rw e (q, All-remove_row i ts a)
  ]

-- The keys fall from row to row, so they are distinct.
abbrev pub IsDescending : List Task → Type 0
IsDescending [] = Unit
IsDescending (t ∷ ts) = All (λ x. x.id < t.id) ts × IsDescending ts

Below-set_row :
    (n : ℕ) (r : Task) (ts : List Task)
    → All (λ x. x.id < n) ts
    → All (λ x. x.id < n) (set_row r ts)
unfolding set_row
Below-set_row n r [] a = tt
Below-set_row n r (t ∷ ts) (q, a) = elim (Bool-cases (t.id == r.id)) [
  | inl e ↦ rw e (ground arith, Below-set_row n r ts a)
  | inr e ↦ rw e (q, Below-set_row n r ts a)
]

pub IsDescending-set_row :
    (r : Task) (ts : List Task) → IsDescending ts → IsDescending (set_row r ts)
unfolding set_row
IsDescending-set_row r [] h = tt
IsDescending-set_row r (t ∷ ts) (a, h) = elim (Bool-cases (t.id == r.id)) [
  | inl e ↦
      let same : t.id ≡ r.id = ground arith in
      rw e (rw (← same) (Below-set_row t.id r ts a), IsDescending-set_row r ts h)
  | inr e ↦ rw e (Below-set_row t.id r ts a, IsDescending-set_row r ts h)
]

pub IsDescending-remove_row :
    (i : ℕ) (ts : List Task) → IsDescending ts → IsDescending (remove_row i ts)
unfolding remove_row
IsDescending-remove_row i [] h = tt
IsDescending-remove_row i (t ∷ ts) (a, h) = elim (Bool-cases (t.id == i)) [
  | inl e ↦ rw e (IsDescending-remove_row i ts h)
  | inr e ↦ rw e (All-remove_row (λ x. x.id < t.id) i ts a, IsDescending-remove_row i ts h)
]

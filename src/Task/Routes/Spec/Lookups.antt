-- ===== src/Task/Routes/Spec/Lookups.antt =====
-- Rows in the order of their keys, under their keys and on the pages of a listing.
use go_fiber_starter.Prelude.{
  ℕ, zero, suc, ◌<◌, ◌≡◌, refl, false, none, some, List, [], ◌∷◌, All, arith, ◌==◌, take, drop,
}
use go_fiber_starter.Prelude.Int.{ℤ, pos, negsuc}
use go_fiber_starter.Task.Model.{Task, find_row}
use go_fiber_starter.Task.Model.Rows.{IsDescending}
use go_fiber_starter.Task.Gorm.{window}

-- Keys in order: what is below a key is not under it, and every row is found under its own.
pub find_row-Below : (i : ℕ) (ts : List Task) → All (λ t. t.id < i) ts → find_row i ts ≡ none
unfolding find_row
find_row-Below i [] h = refl
find_row-Below i (t ∷ ts) (below, h) = ground (arith, find_row-Below i ts h)

later-found :
    (t : Task) (ts us : List Task)
    → All (λ x. x.id < t.id) us
    → All (λ x. find_row x.id ts ≡ some x) us
    → All (λ x. find_row x.id (t ∷ ts) ≡ some x) us
unfolding find_row
later-found t ts [] below h = tt
later-found t ts (u ∷ us) (b, below) (found, h) =
    let other : (t.id == u.id) ≡ false = ground arith in
    (rw other found, later-found t ts us below h)

own : (t : Task) (ts : List Task) → find_row t.id (t ∷ ts) ≡ some t
unfolding find_row
own t ts = ground arith

pub IsDescending-find_row :
    (ts : List Task) → IsDescending ts → All (λ t. find_row t.id ts ≡ some t) ts
IsDescending-find_row [] h = tt
IsDescending-find_row (t ∷ ts) (below, h) =
    (own t ts, later-found t ts ts below (IsDescending-find_row ts h))

module _ (P : Task → Type 0) where
  All-take : (n : ℕ) (ts : List Task) → All P ts → All P (take n ts)
  All-take zero ts h = tt
  All-take (suc n) [] h = tt
  All-take (suc n) (t ∷ ts) (p, h) = (p, All-take n ts h)

  All-drop : (n : ℕ) (ts : List Task) → All P ts → All P (drop n ts)
  All-drop zero ts h = h
  All-drop (suc n) [] h = tt
  All-drop (suc n) (t ∷ ts) (p, h) = All-drop n ts h

  pub All-window : (l o : ℤ) (ts : List Task) → All P ts → All P (window l o ts)
  All-window (pos l) (pos o) ts h = All-take l (drop o ts) (All-drop o ts h)
  All-window (pos l) (negsuc o) ts h = All-take l ts h
  All-window (negsuc l) (pos o) ts h = All-drop o ts h
  All-window (negsuc l) (negsuc o) ts h = h

IsDescending-take : (n : ℕ) (ts : List Task) → IsDescending ts → IsDescending (take n ts)
IsDescending-take zero ts h = tt
IsDescending-take (suc n) [] h = tt
IsDescending-take (suc n) (t ∷ ts) (below, h) =
    (All-take (λ x. x.id < t.id) n ts below, IsDescending-take n ts h)

IsDescending-drop : (n : ℕ) (ts : List Task) → IsDescending ts → IsDescending (drop n ts)
IsDescending-drop zero ts h = h
IsDescending-drop (suc n) [] h = tt
IsDescending-drop (suc n) (t ∷ ts) (below, h) = IsDescending-drop n ts h

pub IsDescending-window :
    (l o : ℤ) (ts : List Task) → IsDescending ts → IsDescending (window l o ts)
IsDescending-window (pos l) (pos o) ts h =
    IsDescending-take l (drop o ts) (IsDescending-drop o ts h)
IsDescending-window (pos l) (negsuc o) ts h = IsDescending-take l ts h
IsDescending-window (negsuc l) (pos o) ts h = IsDescending-drop o ts h
IsDescending-window (negsuc l) (negsuc o) ts h = h

-- ===== src/Task/Memory.antt =====
-- A table in memory that behaves as the documentation of the mapper says, and never fails. It
-- shows that the hypotheses on the database can be met, and runs in the tests.
use Prim.Native.Nat.{max}
use go_fiber_starter.Prelude.{
  ℕ, suc, ◌≤◌, ◌<◌, ◌≡◌, refl, inl, Option, none, some, List, [], ◌∷◌, Result, ok, err, All, length,
  sym, ap, ◌↔◌, arith,
}
use go_fiber_starter.Prelude.Int.{ℤ, pos}
use go_fiber_starter.Apperror.{
  GoError, find_app, find_fiber, is_app, is_sentinel, sentinel, record_not_found,
}
use go_fiber_starter.Task.Model.{Task, find_row, set_row, remove_row}
use go_fiber_starter.Task.Gorm.{Gorm, IsGorm, IsUp, Stored, window, IsForeign}

abbrev pub top : List Task → ℕ
top [] = 0
top (t ∷ ts) = max t.id (top ts)

All-top : (ts : List Task) (n : ℕ) → top ts ≤ n → All (λ x. x.id < suc n) ts
All-top [] n h = tt
All-top (t ∷ ts) n h = (omega arith, All-top ts n (omega arith))

abbrev pub missing_row : GoError
missing_row = sentinel record_not_found "record not found"

abbrev pub numbered : Task → List Task → Task
numbered t ts = record t { id = suc (top ts) }

abbrev pub touched : Task → Task
touched t = record t { updated_at = suc t.updated_at }

abbrev pub looked_up : Option Task → Result GoError Task
looked_up none = err missing_row
looked_up (some t) = ok t

abbrev pub row_count : Option Task → ℤ
row_count none = pos 0
row_count (some t) = pos 1

abbrev pub settle : List Task → Result GoError Task → List Task → Result GoError Task × List Task
settle before (ok t) after = (ok t, after)
settle before (err e) after = (err e, before)

abbrev pub memory : Gorm
memory = record {
  Db = List Task;
  name = "sqlite";
  create = λ t ts. (ok (numbered t ts), numbered t ts ∷ ts);
  first = λ b i ts. looked_up (find_row i ts);
  count = λ ts. ok (pos (length ts));
  find_desc = λ l o ts. ok (window l o ts);
  save = λ t ts. (ok (touched t), set_row (touched t) ts);
  delete = λ i ts. (ok (row_count (find_row i ts)), remove_row i ts);
  transaction = λ f ts. settle ts (f ts).0 (f ts).1;
}

IsForeign-missing_row : IsForeign missing_row
unfolding find_app find_fiber is_app
IsForeign-missing_row = record { no_app = refl; no_fiber = refl; no_code = λ target. refl }

looked_up-some :
    (o : Option Task) (t : Task) → ◌≡◌ {A = Result GoError Task} (looked_up o) (ok t) → o ≡ some t
looked_up-some none t h = cc
looked_up-some (some u) t h = cc

looked_up-err :
    (o : Option Task) (e : GoError)
    → ◌≡◌ {A = Result GoError Task} (looked_up o) (err e)
    → (o ≡ none) × (missing_row ≡ e)
looked_up-err none e h = (refl, cc)
looked_up-err (some u) e h = cc

row_count_zero : (o : Option Task) → (row_count o ≡ pos 0) ↔ (o ≡ none)
row_count_zero none = ((λ h. refl), (λ h. refl))
row_count_zero (some t) = ((λ h. cc), (λ h. cc))

settle_ok :
    (before after : List Task) (r : Result GoError Task) (t : Task) (last : List Task)
    → settle before r after ≡ (ok t, last)
    → (r ≡ ok t) × (after ≡ last)
settle_ok before after (ok u) t last h = (cc, cc)
settle_ok before after (err e) t last h = cc

settle_err :
    (before after : List Task) (r : Result GoError Task) (e : GoError) (last : List Task)
    → settle before r after ≡ (err e, last)
    → (last ≡ before) × (r ≡ err e)
settle_err before after (ok u) e last h = cc
settle_err before after (err x) e last h = (cc, cc)

ok-inj : {A : Type 0} (a b : A) → ◌≡◌ {A = Result GoError A} (ok a) (ok b) → a ≡ b
ok-inj a b h = cc

ok-ne-err : {A B : Type 0} (a : A) (e : GoError) → ◌≡◌ {A = Result GoError A} (ok a) (err e) → B
ok-ne-err a e h = cc

refl-Stored : (t : Task) → Stored t t
refl-Stored t = record { id = refl; title = refl; done = refl; due_date = ((λ h. h), (λ h. h)) }

abbrev pub memory_rows : List Task → List Task
memory_rows ts = ts

pub memory-IsGorm : IsGorm memory memory_rows
memory-IsGorm = record {
  create_ok = λ t t' ts ts' fresh h.
      let same : numbered t ts ≡ t' = ok-inj (numbered t ts) t' (ap (λ p. p.0) h) in
      rw (← same) (
        record { title = refl; done = refl; due_date = refl },
        (numbered t ts, refl-Stored (numbered t ts), sym (ap (λ p. p.1) h)),
        All-top ts (top ts) (omega arith),
      );
  create_err = λ t e ts ts' h. ok-ne-err (numbered t ts) e (ap (λ p. p.0) h);
  first_ok = λ b i t ts h. looked_up-some (find_row i ts) t h;
  first_err = λ b i e ts h. rw (← (looked_up-err (find_row i ts) e h).1) IsForeign-missing_row;
  first_not_found = λ b i e ts h is. (looked_up-err (find_row i ts) e h).0;
  count_ok = λ n ts h. sym (ok-inj (pos (length ts)) n h);
  count_err = λ e ts h. ok-ne-err (pos (length ts)) e h;
  find_ok = λ l o us ts h. sym (ok-inj (window l o ts) us h);
  find_err = λ l o e ts h. ok-ne-err (window l o ts) e h;
  save_err = λ t e ts ts' h. ok-ne-err (touched t) e (ap (λ p. p.0) h);
  save_ok = λ t t' old ts ts' there h.
      let same : touched t ≡ t' = ok-inj (touched t) t' (ap (λ p. p.0) h) in
      rw (← same) (refl, (touched t, refl-Stored (touched t), sym (ap (λ p. p.1) h)));
  delete_ok = λ i n ts ts' h.
      let same : row_count (find_row i ts) ≡ n =
        ok-inj (row_count (find_row i ts)) n (ap (λ p. p.0) h) in
      (sym (ap (λ p. p.1) h), rw (← same) (row_count_zero (find_row i ts)));
  delete_err = λ i e ts ts' h. ok-ne-err (row_count (find_row i ts)) e (ap (λ p. p.0) h);
  transaction_ok = λ f t ts ts' h.
      let (same_result, same_rows) = settle_ok ts (f ts).1 (f ts).0 t ts' h in
      λ j. (same_result j, same_rows j);
  transaction_err =
      λ f e ts ts' h. let (kept, ran) = settle_err ts (f ts).1 (f ts).0 e ts' h in (kept, inl ran);
}

pub memory-IsUp : (ts : List Task) → IsUp memory memory_rows ts
unfolding is_sentinel
memory-IsUp ts = record {
  create_up = λ t fresh. (numbered t ts, numbered t ts ∷ ts, refl);
  first_up = λ b i t h. ap looked_up h;
  first_missing = λ b i h. (missing_row, ap looked_up h, refl);
  count_up = (pos (length ts), refl);
  find_up = λ l o. (window l o ts, refl);
  save_up = λ t old there. (touched t, set_row (touched t) ts, refl);
  delete_up = λ i. (row_count (find_row i ts), remove_row i ts, refl);
  transaction_up = λ f t ts' h. ap (λ p. settle ts p.0 p.1) h;
  transaction_fails = λ f e h. ap (λ r. (settle ts r (f ts).1).0) h;
}

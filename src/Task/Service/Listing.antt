-- ===== src/Task/Service/Listing.antt =====
-- `List` of internal/modules/task/service.go: the pages of a listing, one after the other.
use go_fiber_starter.Prelude.{
  ℕ, zero, suc, ◌+◌, ◌*◌, ◌/◌, ◌^◌, ◌≤◌, ◌<◌, ◌≡◌, refl, sym, ap, ◌∙◌, List, [], ◌∷◌, ◌++◌, Result,
  ok, ◌>>=◌, arith, length, take, drop, take_split, drop-drop, take_all,
}
use go_fiber_starter.Prelude.Int.{ℤ, pos, pos_part, half_modulus}
use go_fiber_starter.Apperror.{GoError}
use go_fiber_starter.Pagination.{PageQuery, PageMeta, new_page_query, offset, new_page_meta}
use go_fiber_starter.Pagination.Bounds.{
  new_page_query_id, offset_exact, total_pages_exact, round_up,
}
use go_fiber_starter.Task.Model.{Task}
use go_fiber_starter.Task.Dto.{Response, to_response, to_responses}
use go_fiber_starter.Task.Gorm.{window}
use go_fiber_starter.Task.Repository.{Repository}
use go_fiber_starter.Task.Repository.Contract.{IsRepository, IsReadable}
use go_fiber_starter.Task.Service.{list}
use go_fiber_starter.Task.Routes.Plain.{ShowsAll, to_responses-ShowsAll}

to_responses-append :
    (ts us : List Task) → to_responses (ts ++ us) ≡ to_responses ts ++ to_responses us
unfolding to_responses
to_responses-append [] us = refl
to_responses-append (t ∷ ts) us = ap (λ l. to_response t ∷ l) (to_responses-append ts us)

-- The number of pages of `rows` rows at the limit `l + 1`.
abbrev pub page_count : ℕ → ℕ → ℕ
page_count rows l = (rows + l) / suc l

abbrev pub meta_of : ℕ → ℕ → ℕ → PageMeta
meta_of rows p l = record {
  page = pos (p + 1);
  limit = pos (suc l);
  total_count = pos rows;
  total_pages = pos (page_count rows l);
}

everything : (ts : List Task) (n l : ℕ) → length ts ≤ n → take n (drop (0 * suc l) ts) ≡ ts
everything ts n l h = (let e : 0 * suc l ≡ 0 = omega arith in rw e (take_all n ts h))

-- The rows of one page and those of the pages after it.
joined :
    (ts : List Task) (p n l : ℕ)
    → to_responses (take (suc l) (drop (p * suc l) ts))
        ++ to_responses (take (n * suc l) (drop ((p + 1) * suc l) ts))
      ≡ to_responses (take (suc n * suc l) (drop (p * suc l) ts))
joined ts p n l =
    let after : (p + 1) * suc l ≡ p * suc l + suc l = omega arith in
    let both : suc n * suc l ≡ suc l + n * suc l = omega arith in
    sym (to_responses-append (take (suc l) (drop (p * suc l) ts)) _)
    ∙ ap to_responses (
        rw (after, both, ← drop-drop (p * suc l) (suc l) ts)
          (take_split (suc l) (n * suc l) (drop (p * suc l) ts)))

page_answer :
    (p l total : ℕ) (ts shown : List Task) (n : ℤ)
    → ts ≡ shown
    → n ≡ pos total
    → total + suc l < half_modulus
    → ◌>>=◌ {B = List Response × PageMeta}
        (new_page_meta (record { page = pos (p + 1); limit = pos (suc l) }) n)
        (λ meta. ok (to_responses ts, meta))
      ≡ ok (to_responses shown, meta_of total p l)
page_answer p l total ts shown n same count small =
    rw (same, count) (rw (total_pages_exact (pos (p + 1)) total l small) refl)

module _ {S : Type 0} (repo : Repository S) where
  -- A client that reads `n` pages of `l + 1` tasks, from the page `p + 1` on.
  unfoldable pub read_pages : ℕ → ℕ → ℕ → S → Result GoError (List Response)
  read_pages l p zero s = ok []
  read_pages l p (suc n) s = do
    (items, meta) ← list repo (pos (p + 1)) (pos (suc l)) s
    rest ← read_pages l (p + 1) n s
    ok (items ++ rest)

  -- It reads the first page, and all the pages that the meta block announces.
  unfoldable pub read_all : ℕ → S → Result GoError (List Response)
  unfolding read_pages
  read_all l s = do
    (items, meta) ← list repo (pos 1) (pos (suc l)) s
    read_pages l 0 (pos_part meta.total_pages) s

  module _ (rows : S → List Task) (laws : IsRepository rows repo) where
    -- One page, at a limit of 1 to 100: the rows from the offset on, as many as the limit allows,
    -- and the count of all rows and pages, over a repository that keeps the contract and
    -- whose readings succeed, where the page, the offset and the count with the limit stay below 2^63.
    pub list_page :
        (p l : ℕ) (s : S)
        → IsReadable rows repo s
        → l < 100
        → p + 1 < half_modulus
        → p * suc l < half_modulus
        → length (rows s) + suc l < half_modulus
        → list repo (pos (p + 1)) (pos (suc l)) s
          ≡ ok (
            to_responses (take (suc l) (drop (p * suc l) (rows s))),
            meta_of (length (rows s)) p l,
          )
    unfolding list
    list_page p l s up hl hp ho hr =
        let q : PageQuery = record { page = pos (p + 1); limit = pos (suc l) } in
        let same : new_page_query (pos (p + 1)) (pos (suc l)) ≡ q =
          new_page_query_id (pos (p + 1)) (pos (suc l)) (omega arith) (omega arith) (omega arith) in
        let ((ts, n), listed) = up.list_up q in
        let (shown, counted) = laws.list_ok q ts n s listed in
        let here : offset q ≡ pos (p * suc l) = offset_exact p (suc l) hp ho in
        rw same (
          rw listed (
            page_answer p l (length (rows s)) ts (take (suc l) (drop (p * suc l) (rows s))) n
              (shown ∙ ap (λ o. window (pos (suc l)) o (rows s)) here) counted hr))

    read_pages_from :
        (l n p : ℕ) (s : S)
        → IsReadable rows repo s
        → l < 100
        → p + n < half_modulus
        → (p + n) * suc l < half_modulus
        → length (rows s) + suc l < half_modulus
        → read_pages l p n s ≡ ok (to_responses (take (n * suc l) (drop (p * suc l) (rows s))))
    unfolding read_pages
    read_pages_from l zero p s up hl hp ho hr =
        let e : 0 * suc l ≡ 0 = omega arith in rw e (unfold to_responses in refl)
    read_pages_from l (suc n) p s up hl hp ho hr =
        let first = list_page p l s up hl (omega arith) (grind arith) hr in
        let more : (p + 1) + n ≡ p + suc n = omega arith in
        let later = read_pages_from l n (p + 1) s up hl (rw more hp) (rw more ho) hr in
        rw first (rw later (ap ok (joined (rows s) p n l)))

    -- The pages that are announced hold all rows.
    counted_pages :
        (l : ℕ) (s : S)
        → IsReadable rows repo s
        → l < 100
        → length (rows s) < 2 ^ 62
        → read_pages l 0 (page_count (length (rows s)) l) s ≡ ok (to_responses (rows s))
    counted_pages l s up hl hr =
        let total = length (rows s) in
        let pages = page_count total l in
        let (covered, tight) = round_up total l in
        let few : pages ≤ pages * suc l = grind arith in
        let from_start =
          read_pages_from l pages 0 s up hl (omega arith) (omega arith) (omega arith) in
        from_start ∙ ap (λ ts. ok (to_responses ts)) (everything (rows s) (pages * suc l) l covered)

    -- A client that reads the first page, at a limit of 1 to 100, and then as many pages as the meta
    -- block of that page announces, from the first one on, gets every task once, in every field and
    -- the newest first, over a repository that keeps the contract and whose readings succeed, with a
    -- table below 2^62 rows.
    pub read_all-ShowsAll :
        (l : ℕ) (s : S)
        → IsReadable rows repo s
        → l < 100
        → length (rows s) < 2 ^ 62
        → (answers : List Response) × (read_all l s ≡ ok answers) × ShowsAll (rows s) answers
    unfolding read_all
    read_all-ShowsAll l s up hl hr =
        let first = list_page 0 l s up hl (omega arith) (omega arith) (omega arith) in
        (
          to_responses (rows s),
          rw first (counted_pages l s up hl hr),
          to_responses-ShowsAll (rows s),
        )

-- ===== src/Pagination/Bounds.antt =====
-- The bounds of internal/pagination/pagination.go.
use go_fiber_starter.Prelude.{ℕ, zero, suc, ◌+◌, ◌-◌, ◌*◌, ◌/◌, ◌≤◌, ◌<◌, ◌≡◌, refl, ok, arith}
use go_fiber_starter.Prelude.Int.{
  ℤ, pos, negsuc, modulus, pos_mul_overflow, pos_part, ◌≤ℤ◌, ◌+ℤ◌, ◌-ℤ◌, ◌/ℤ◌, half_modulus,
  pos_add, pos_sub, pos_mul,
}
use go_fiber_starter.Pagination.{offset, new_page_query, PageMeta, new_page_meta, checked_div}

-- Whatever is asked for, the page is at least 1 and the limit lies between 1 and 100.
pub new_page_query_bounds :
    (p l : ℤ)
    → (pos 1 ≤ℤ (new_page_query p l).page)
      × (pos 1 ≤ℤ (new_page_query p l).limit)
      × ((new_page_query p l).limit ≤ℤ pos 100)
unfolding new_page_query
new_page_query_bounds p l = ground arith

-- A query that is in range is taken as it is.
pub new_page_query_id :
    (p l : ℤ)
    → pos 1 ≤ℤ p
    → pos 1 ≤ℤ l
    → l ≤ℤ pos 100
    → new_page_query p l ≡ record { page = p; limit = l }
unfolding new_page_query
new_page_query_id p l hp hl hm = ground arith

-- The offset of a page is the exact product, as long as that fits `int`.
pub offset_exact :
    (p l : ℕ)
    → p + 1 < half_modulus
    → p * l < half_modulus
    → offset (record { page = pos (p + 1); limit = pos l }) ≡ pos (p * l)
unfolding offset
offset_exact p l small h = rw (pos_sub (p + 1) 1 (omega arith) small) (rw cancel (pos_mul p l h))
  where
    cancel : p + 1 - 1 ≡ p
    cancel = omega arith

pub total_pages_exact :
    (page : ℤ) (t l : ℕ)
    → t + suc l < half_modulus
    → new_page_meta (record { page = page; limit = pos (suc l) }) (pos t)
      ≡ ok (record {
        page = page;
        limit = pos (suc l);
        total_count = pos t;
        total_pages = pos ((t + l) / suc l);
      })
unfolding new_page_meta
total_pages_exact page t l h =
    let less : t + suc l - 1 ≡ t + l = omega arith in
    rw (pos_add t (suc l) h, pos_sub (t + suc l) 1 (omega arith) h, less) refl

-- Rounding up.
pub round_up : (t l : ℕ) → (t ≤ (t + l) / suc l * suc l) × ((t + l) / suc l * suc l < t + suc l)
round_up t l = (grind arith, grind arith)

checked_div_total : (a b : ℤ) → pos 1 ≤ℤ b → (q : ℤ) × (checked_div a b ≡ ok q)
checked_div_total a (pos zero) h = absurd (omega arith)
checked_div_total a (pos (suc n)) h = (a /ℤ pos (suc n), refl)
checked_div_total a (negsuc n) h = absurd (omega arith)

-- The limit of a query is never zero, so the number of pages is always computed: no request for a
-- list panics by a division.
pub new_page_meta-total :
    (p l total : ℤ) → (m : PageMeta) × (new_page_meta (new_page_query p l) total ≡ ok m)
unfolding new_page_meta
new_page_meta-total p l total =
    let q = new_page_query p l in
    let (pages, e) =
      checked_div_total (total +ℤ q.limit -ℤ pos 1) q.limit (new_page_query_bounds p l).1 in
    (record { page = q.page; limit = q.limit; total_count = total; total_pages = pages }, rw e)

covers :
    (page limit : ℤ) (t : ℕ)
    → pos 1 ≤ℤ limit
    → t + pos_part limit < half_modulus
    → (m : PageMeta) × (pages : ℕ) × (new_page_meta (record { page = page; limit = limit }) (pos t)
        ≡ ok m)
      × (m.total_pages ≡ pos pages)
      × (t ≤ pages * pos_part limit)
      × (pages * pos_part limit < t + pos_part limit)
covers page (pos zero) t h k = absurd (omega arith)
covers page (pos (suc l)) t h k =
    let (below, above) = round_up t l in
    (_, (t + l) / suc l, total_pages_exact page t l k, refl, below, above)
covers page (negsuc n) t h k = absurd (omega arith)

within_hundred : (l : ℤ) → pos 1 ≤ℤ l → l ≤ℤ pos 100 → pos_part l ≤ 100
within_hundred (pos n) h k = omega arith
within_hundred (negsuc n) h k = absurd (omega arith)

-- With the limit that was chosen, the number of pages is the least one that holds `t` rows, for
-- less than 2^63 - 100 rows.
pub total_pages_covers :
    (p l : ℤ) (t : ℕ)
    → t + 100 < half_modulus
    → (m : PageMeta) × (pages : ℕ) × (new_page_meta (new_page_query p l) (pos t) ≡ ok m)
      × (m.total_pages ≡ pos pages)
      × (t ≤ pages * pos_part (new_page_query p l).limit)
      × (pages * pos_part (new_page_query p l).limit < t + pos_part (new_page_query p l).limit)
total_pages_covers p l t h =
    let b = new_page_query_bounds p l in
    let small = within_hundred (new_page_query p l).limit b.1 b.2 in
    covers (new_page_query p l).page _ t b.1 (omega arith)

-- The offset of a page wraps to a negative number, which is 2^64 too small, where the page is below
-- 2^63 and the product of the pages before it and the limit reaches 2^63 and stays below 2^64.
pub offset_overflow :
    (p l : ℕ)
    → p + 1 < half_modulus
    → half_modulus ≤ p * l
    → p * l < modulus
    → offset (record { page = pos (p + 1); limit = pos l }) ≡ negsuc (modulus - p * l - 1)
unfolding offset
offset_overflow p l small h k =
    let back : p + 1 - 1 ≡ p = omega arith in
    rw (pos_sub (p + 1) 1 (omega arith) small) (rw back (pos_mul_overflow p l h k))

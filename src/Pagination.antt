-- ===== src/Pagination.antt =====
-- internal/pagination/pagination.go. `int` and `int64` are 64-bit integers with their wrap-around.
pub mod Bounds
use go_fiber_starter.Prelude.{zero, Result, ok, err, ◌>>=◌, if◌then◌else◌}
use go_fiber_starter.Prelude.Int.{ℤ, pos, ltb_ℤ, ◌+ℤ◌, ◌-ℤ◌, ◌*ℤ◌, ◌/ℤ◌}
use go_fiber_starter.Apperror.{GoError, plain}

abbrev pub default_page : ℤ
default_page = pos 1

abbrev pub default_limit : ℤ
default_limit = pos 20

abbrev pub max_limit : ℤ
max_limit = pos 100

pub record PageQuery : Type 0 where
  pub page : ℤ
  pub limit : ℤ

unfoldable pub offset : PageQuery → ℤ
unfolding ◌-ℤ◌ ◌*ℤ◌
offset p = (p.page -ℤ pos 1) *ℤ p.limit

abbrev at_least_one : ℤ → ℤ → ℤ
at_least_one x default = if ltb_ℤ x (pos 1) then default else x

abbrev at_most : ℤ → ℤ → ℤ
at_most x most = if ltb_ℤ most x then most else x

unfoldable pub new_page_query : ℤ → ℤ → PageQuery
new_page_query page limit = record {
  page = if ltb_ℤ page default_page then default_page else page;
  limit = at_most (at_least_one limit default_limit) max_limit;
}

pub record PageMeta : Type 0 where
  pub page : ℤ
  pub limit : ℤ
  pub total_count : ℤ
  pub total_pages : ℤ

-- A division by zero panics; the recovering middleware makes this error of the panic.
abbrev pub divide_by_zero : GoError
divide_by_zero = plain "runtime error: integer divide by zero"

abbrev pub checked_div : ℤ → ℤ → Result GoError ℤ
checked_div a (pos zero) = err divide_by_zero
checked_div a b = ok (a /ℤ b)

unfoldable pub new_page_meta : PageQuery → ℤ → Result GoError PageMeta
unfolding ◌+ℤ◌ ◌-ℤ◌ ◌/ℤ◌
new_page_meta q total = do
  tp ← checked_div (total +ℤ q.limit -ℤ pos 1) q.limit
  ok (record { page = q.page; limit = q.limit; total_count = total; total_pages = tp })

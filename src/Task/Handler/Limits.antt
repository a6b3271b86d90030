-- ===== src/Task/Handler/Limits.antt =====
-- The limit that a query asks for, from its text to the number of rows: `atoiDefault` of
-- internal/modules/task/handler.go and `NewPageQuery` of internal/pagination/pagination.go.
use Prim.Native.Char.{Char, code}
use Prim.Native.String.{String, ◌∷◌}
use go_fiber_starter.Prelude.{
  ℕ, ◌≤◌, ◌≡◌, sym, ap, ◌∙◌, false, some, ltb, leb, ◌==◌, if◌then◌else◌, arith,
}
use go_fiber_starter.Prelude.Int.{ℤ, pos, half_modulus}
use go_fiber_starter.Prelude.Text.{digits_value, decimal}
use go_fiber_starter.Prelude.Text.Decimal.{digits_value-decimal, decimal-cons}
use go_fiber_starter.Pagination.{default_limit, new_page_query}
use go_fiber_starter.Task.Handler.{atoi_default, plus, positive_or}

read_digits :
    (c : Char) (t : String) (n : ℕ) (def : ℤ)
    → b'0' ≤ code c
    → digits_value 0 (c ∷ t) ≡ some n
    → atoi_default (c ∷ t) def ≡ positive_or (plus (some n)) def
unfolding atoi_default
read_digits c t n def b e =
    let m : (code c == b'-') ≡ false = ground arith in
    let p : (code c == b'+') ≡ false = ground arith in
    rw (m, p) (ap (λ o. positive_or (plus o) def) e)

-- The decimal form of a number as the limit of a query gives that number of rows from 1 to 100, 100
-- above that, and 20 for zero; but a number of 64 bits or more gives 20 again, and not 100.
pub limit-decimal :
    (n : ℕ) (page : ℤ)
    → (new_page_query page (atoi_default (decimal n) default_limit)).limit ≡ (
        if n == 0
        then pos 20
        else if leb n 100
        then pos n
        else if ltb n half_modulus
        then pos 100
        else pos 20)
unfolding new_page_query
limit-decimal n page =
    let (c, t, e, b) = decimal-cons n in
    let read : digits_value 0 (c ∷ t) ≡ some n =
      sym (ap (digits_value 0) e) ∙ digits_value-decimal n in
    rw e (rw (read_digits c t n default_limit b read) (ground arith))

-- ===== src/Task/Handler/PathId.antt =====
-- `parseID` and `atoiDefault` of internal/modules/task/handler.go.
use Prim.Native.Char.{Char, code}
use Prim.Native.String.{String, [], ◌∷◌}
use go_fiber_starter.Prelude.{
  ℕ, ◌≤◌, ◌<◌, ◌≡◌, ◌≢◌, refl, ◌↔◌, Option, none, some, ok, arith, ◌==◌, false, sym, ap, ◌∙◌,
}
use go_fiber_starter.Prelude.Int.{ℤ, pos, modulus, half_modulus}
use go_fiber_starter.Prelude.Text.{digits_value, decimal}
use go_fiber_starter.Prelude.Text.Decimal.{digits_value-decimal, decimal-cons}
use go_fiber_starter.Task.Handler.{parse_id, atoi_default, positive_id, below, plus, positive_or}
use text.Mathlib.TextLemmas.{cons≢nil}

positive_below :
    (o : Option ℕ) (i : ℕ)
    → (positive_id (below modulus o) ≡ ok i) ↔ ((o ≡ some i) × (1 ≤ i) × (i < modulus))
positive_below none i = ((λ h. cc), (λ h. cc (h.0)))
positive_below (some n) i = (
  (λ h. (ground arith, ground arith, ground arith)),
  (λ (e, l, u). (let same : n ≡ i = cc in rw same (ground arith))),
)

-- A path parameter is accepted exactly if it is a text of decimal digits, not empty, whose value is
-- between 1 and 2^64 - 1, and it stands for that value.
pub parse_id_iff :
    (raw : String) (i : ℕ)
    → (parse_id raw ≡ ok i) ↔ ((raw ≢ []) × (digits_value 0 raw ≡ some i) × (1 ≤ i) × (i < modulus))
unfolding parse_id
parse_id_iff [] i = ((λ h. cc), (λ h. absurd (h.0 refl)))
parse_id_iff (c ∷ s) i =
    let (to, from) = positive_below (digits_value 0 (c ∷ s)) i in
    (
      (λ h. let (value, low, high) = to h in ((λ e. cons≢nil e), value, low, high)),
      (λ (e, value, low, high). from (value, low, high)),
    )

with_digits :
    (c : Char) (t : String) (n : ℕ) (def : ℤ)
    → b'0' ≤ code c
    → digits_value 0 (c ∷ t) ≡ some n
    → 1 ≤ n
    → n < half_modulus
    → atoi_default (c ∷ t) def ≡ pos n
unfolding atoi_default
with_digits c t n def b e h k =
    let m : (code c == b'-') ≡ false = ground arith in
    let p : (code c == b'+') ≡ false = ground arith in
    rw (m, p) (ap (λ o. positive_or (plus o) def) e ∙ ground arith)

-- The decimal form of a positive number of 63 bits is read as that number.
pub atoi_default-decimal :
    (n : ℕ) (def : ℤ) → 1 ≤ n → n < half_modulus → atoi_default (decimal n) def ≡ pos n
unfolding atoi_default
atoi_default-decimal n def h k =
    let (c, t, e, b) = decimal-cons n in
    let read : digits_value 0 (c ∷ t) ≡ some n =
      sym (ap (digits_value 0) e) ∙ digits_value-decimal n in
    rw e (with_digits c t n def b read h k)

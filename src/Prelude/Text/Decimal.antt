-- ===== src/Prelude/Text/Decimal.antt =====
-- Reading a decimal number gives back the number that was written.
use Prim.Native.Nat.{ℕ, zero, suc, ◌+◌, ◌-◌, ◌*◌, ◌/◌, ◌%◌, ◌<◌, ◌≤◌}
use Prim.Native.Char.{Char, code}
use Prim.Native.String.{String, ◌∷◌}
use mathlib.Core.Path.{◌≡◌, refl, ◌∙◌}
use mathlib.Core.Option.{some}
use mathlib.Core.Logic.{inl, inr}
use native.Mathlib.Omega.{arith}
use go_fiber_starter.Prelude.Tests.{ltb, Bool-cases}
use go_fiber_starter.Prelude.Text.{digits_value, digit, decimal_before, decimal}

-- The characters of the ten digits.
digit-code : (d : ℕ) → d < 10 → code (digit d) ≡ b'0' + d
unfolding digit
digit-code zero h = refl
digit-code (suc zero) h = refl
digit-code (suc (suc zero)) h = refl
digit-code (suc (suc (suc zero))) h = refl
digit-code (suc (suc (suc (suc zero)))) h = refl
digit-code (suc (suc (suc (suc (suc zero))))) h = refl
digit-code (suc (suc (suc (suc (suc (suc zero)))))) h = refl
digit-code (suc (suc (suc (suc (suc (suc (suc zero))))))) h = refl
digit-code (suc (suc (suc (suc (suc (suc (suc (suc zero)))))))) h = refl
digit-code (suc (suc (suc (suc (suc (suc (suc (suc (suc zero))))))))) h = refl
digit-code (suc (suc (suc (suc (suc (suc (suc (suc (suc (suc n)))))))))) h = absurd (omega arith)

read_digit :
    (acc d : ℕ) (s : String)
    → d < 10
    → digits_value acc (digit d ∷ s) ≡ digits_value (acc * 10 + d) s
unfolding digits_value
read_digit acc d s h =
    rw (digit-code d h) (let e : 48 + d - 48 ≡ d = omega arith in rw e (ground arith))

read-decimal_before :
    (f n : ℕ) (s : String) → n < f → digits_value 0 (decimal_before f n s) ≡ digits_value n s
unfolding decimal_before
read-decimal_before zero n s h = absurd (omega arith)
read-decimal_before (suc f) n s h = elim (Bool-cases (ltb n 10)) [
  | inl small ↦
      let e : 0 * 10 + n ≡ n = omega arith in
      rw small (rw (read_digit 0 n s (ground arith)) (rw e refl))
  | inr large ↦
      let ih = read-decimal_before f (n / 10) (digit (n % 10) ∷ s) (ground arith) in
      let e : n / 10 * 10 + n % 10 ≡ n = omega arith in
      rw large (ih ∙ rw (read_digit (n / 10) (n % 10) s (omega arith)) (rw e refl))
]

-- A decimal number starts with a digit.
decimal_before-cons :
    (f n : ℕ) (s : String)
    → (c : Char) × (t : String) × (decimal_before (suc f) n s ≡ c ∷ t) × (b'0' ≤ code c)
unfolding decimal_before
decimal_before-cons zero n s = elim (Bool-cases (ltb n 10)) [
  | inl small ↦ (digit n, s, rw small, omega (arith, digit-code n (ground arith)))
  | inr large ↦ (digit (n % 10), s, rw large, omega (arith, digit-code (n % 10) (omega arith)))
]
decimal_before-cons (suc f) n s = elim (Bool-cases (ltb n 10)) [
  | inl small ↦ (digit n, s, rw small, omega (arith, digit-code n (ground arith)))
  | inr large ↦
      let (c, t, e, b) = decimal_before-cons f (n / 10) (digit (n % 10) ∷ s) in
      (c, t, rw large e, b)
]

pub decimal-cons : (n : ℕ) → (c : Char) × (t : String) × (decimal n ≡ c ∷ t) × (b'0' ≤ code c)
unfolding decimal
decimal-cons n = decimal_before-cons n n ""

pub digits_value-decimal : (n : ℕ) → digits_value 0 (decimal n) ≡ some n
unfolding decimal digits_value
digits_value-decimal n = read-decimal_before (suc n) n "" (omega arith)

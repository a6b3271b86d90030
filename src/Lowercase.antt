-- ===== src/Lowercase.antt =====
-- strings.ToLower, as the comparisons with a lower-case text of ASCII see it.
use go_fiber_starter.Prelude.{
  ℕ, ◌+◌, ◌≡◌, ◌↔◌, refl, Bool, true, false, ◌&&◌, List, [], ◌∷◌, String, leb, ◌==◌, if◌then◌else◌,
  map, arith,
}
use go_fiber_starter.Net.{codes}

-- unicode.ToLower as far as its results are letters of ASCII: the capitals, the dotted capital I
-- and the sign of the kelvin. Every other character of ASCII stays, and the result for every other
-- character beyond ASCII lies beyond it, as the code that is kept here does.
abbrev pub lower : ℕ → ℕ
lower n =
    if leb b'A' n && leb n b'Z'
    then n + 32
    else if n == 304
    then b'i'
    else if n == 8490
    then b'k'
    else n

abbrev pub same_codes : List ℕ → List ℕ → Bool
same_codes [] [] = true
same_codes [] (y ∷ ys) = false
same_codes (x ∷ xs) [] = false
same_codes (x ∷ xs) (y ∷ ys) = x == y && same_codes xs ys

abbrev pub lower_codes : String → List ℕ
lower_codes s = map lower (codes s)

-- strings.ToLower(s) == t
unfoldable pub lower_is : String → String → Bool
lower_is t s = same_codes (lower_codes s) (codes t)

same_codes_iff : (xs ys : List ℕ) → (same_codes xs ys ≡ true) ↔ (xs ≡ ys)
same_codes_iff [] [] = ((λ h. refl), (λ h. refl))
same_codes_iff [] (y ∷ ys) = ((λ h. cc), (λ h. cc))
same_codes_iff (x ∷ xs) [] = ((λ h. cc), (λ h. cc))
same_codes_iff (x ∷ xs) (y ∷ ys) =
    let (to, from) = same_codes_iff xs ys in
    (
      (λ h.
          let head : x ≡ y = ground arith in
          let tail : xs ≡ ys = to (ground arith) in λ i. head i ∷ tail i),
      (λ h.
          let head : x ≡ y = cc in let tail : xs ≡ ys = cc in let rest = from tail in ground arith),
    )

pub lower_is_iff : (t s : String) → (lower_is t s ≡ true) ↔ (lower_codes s ≡ codes t)
unfolding lower_is
lower_is_iff t s = same_codes_iff (lower_codes s) (codes t)

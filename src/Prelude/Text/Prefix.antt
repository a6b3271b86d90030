-- ===== src/Prelude/Text/Prefix.antt =====
-- Prefixes of texts.
use Prim.Native.Char.{code}
use Prim.Native.String.{String, [], ◌∷◌}
use mathlib.Core.Path.{◌≡◌, refl}
use mathlib.Core.Bool.{true}
use mathlib.Core.Logic.{inl, inr}
use mathlib.Core.Option.{some, none}
use native.Mathlib.Omega.{arith}
use go_fiber_starter.Prelude.Tests.{◌==◌, Bool-cases}
use go_fiber_starter.Prelude.Text.{cut_prefix, ◌<>◌}
use text.Mathlib.TextLemmas.{nil-append, cons-append}

-- CutPrefix takes a prefix off that was put on.
pub cut_prefix-append : (p s : String) → cut_prefix (p <> s) p ≡ some s
unfolding cut_prefix
cut_prefix-append [] s = rw nil-append refl
cut_prefix-append (c ∷ p) s = rw cons-append (ground (arith, cut_prefix-append p s))

-- Of two texts that differ at a place that both have, none is a prefix of the other, whatever
-- follows.
pub cut_prefix-append_ne :
    (a p s : String) → cut_prefix a p ≡ none → cut_prefix p a ≡ none → cut_prefix (a <> s) p ≡ none
unfolding cut_prefix
cut_prefix-append_ne a [] s h k = cc
cut_prefix-append_ne [] (d ∷ p) s h k = cc
cut_prefix-append_ne (c ∷ a) (d ∷ p) s h k = elim (Bool-cases (code c == code d)) [
  | inl y ↦
      let back : (code d == code c) ≡ true = ground arith in
      rw cons-append (rw y (cut_prefix-append_ne a p s (rw y at h) (rw back at k)))
  | inr n ↦ rw cons-append (rw n refl)
]

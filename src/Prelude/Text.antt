-- ===== src/Prelude/Text.antt =====
-- Texts of the standard library: prefixes, decimal numbers, white space and case.
pub mod Decimal
pub mod Prefix
use Prim.Native.Nat.{ℕ, zero, suc, ◌+◌, ◌-◌, ◌*◌, ◌/◌, ◌%◌}
use Prim.Native.Char.{Char, code}
use Prim.Native.String
use Prim.Native.String.{String, [], ◌∷◌}
use mathlib.Core.Bool.{Bool, true, ◌&&◌, ◌||◌}
use mathlib.Core.Option.{Option, none, some}
use go_fiber_starter.Prelude.Tests.{ltb, leb, ◌==◌, if◌then◌else◌}

infixr 66 ◌<>◌
abbrev pub ◌<>◌ : String → String → String
◌<>◌ = String.◌++◌

-- strings.CutPrefix
unfoldable pub cut_prefix : String → String → Option String
cut_prefix s [] = some s
cut_prefix [] (p ∷ ps) = none
cut_prefix (c ∷ s) (p ∷ ps) = if code c == code p then cut_prefix s ps else none

-- unicode.IsSpace
abbrev pub is_space : ℕ → Bool
is_space c =
    (leb 0x9 c && leb c 0xd)
    || c == 0x20
    || c == 0x85
    || c == 0xa0
    || c == 0x1680
    || (leb 0x2000 c && leb c 0x200a)
    || c == 0x2028
    || c == 0x2029
    || c == 0x202f
    || c == 0x205f
    || c == 0x3000

-- strings.TrimSpace(s) == ""
unfoldable pub is_blank : String → Bool
is_blank [] = true
is_blank (c ∷ s) = is_space (code c) && is_blank s

abbrev pub is_digit : ℕ → Bool
is_digit c = leb b'0' c && leb c b'9'

-- The value of a text of decimal digits, after the digits that `acc` stands for.
unfoldable pub digits_value : ℕ → String → Option ℕ
digits_value acc [] = some acc
digits_value acc (c ∷ s) =
    if is_digit (code c) then digits_value (acc * 10 + (code c - b'0')) s else none

unfoldable pub digit : ℕ → Char
digit zero = "0"
digit (suc zero) = "1"
digit (suc (suc zero)) = "2"
digit (suc (suc (suc zero))) = "3"
digit (suc (suc (suc (suc zero)))) = "4"
digit (suc (suc (suc (suc (suc zero))))) = "5"
digit (suc (suc (suc (suc (suc (suc zero)))))) = "6"
digit (suc (suc (suc (suc (suc (suc (suc zero))))))) = "7"
digit (suc (suc (suc (suc (suc (suc (suc (suc zero)))))))) = "8"
digit _ = "9"

-- The decimal form of a number, put before a text. The number of digits is below the fuel.
decimal_before : ℕ → ℕ → String → String
unfolding digit
decimal_before zero n s = s
decimal_before (suc f) n s =
    let longer = decimal_before f (n / 10) (digit (n % 10) ∷ s) in
    if ltb n 10 then digit n ∷ s else longer

-- strconv.Itoa and the verb %d, of a number that is not negative.
unfoldable pub decimal : ℕ → String
unfolding decimal_before
decimal n = decimal_before (suc n) n ""

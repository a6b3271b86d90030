-- ===== src/Net.antt =====
-- The parsers `ParseIP` and `ParseCIDR` of Go's package net, as tests: whether a text is accepted.
use Prim.Native.Char.{code}
use Prim.Native.String.{String}
use go_fiber_starter.Prelude.{
  ℕ, zero, suc, ◌+◌, ◌-◌, ◌*◌, ◌≡◌, refl, Bool, true, false, not, ◌&&◌, ◌||◌, Option, none, some,
  List, [], ◌∷◌, ltb, leb, ◌==◌, if◌then◌else◌,
}
use go_fiber_starter.Prelude.Text.{is_digit}

abbrev pub codes : String → List ℕ
codes String.[] = []
codes (String.◌∷◌ c s) = code c ∷ codes s

abbrev is_end : List ℕ → Bool
is_end [] = true
is_end (c ∷ s) = false

-- parseIPv4Fields: `value` and `digits` of the field that is read, `fields` before it, and whether
-- the text or the field starts here.
ipv4_from : (value fields digits : ℕ) → (fresh : Bool) → List ℕ → Bool
ipv4_from value fields digits fresh [] = leb 3 fields
ipv4_from value fields digits fresh (c ∷ s) =
    let grown = value * 10 + (c - b'0') in
    let in_field = ipv4_from grown fields (digits + 1) false s in
    let next_field = ipv4_from 0 (fields + 1) 0 true s in
    if is_digit c
    then if digits == 1 && value == 0 || ltb 255 grown then false else in_field
    else if c == b'.'
    then if fresh || is_end s || fields == 3 then false else next_field
    else false

unfoldable pub is_ipv4 : List ℕ → Bool
unfolding ipv4_from
is_ipv4 s = ipv4_from 0 0 0 true s

abbrev is_hex : ℕ → Bool
is_hex c = is_digit c || leb b'a' c && leb c b'f' || leb b'A' c && leb c b'F'

-- The number of hexadecimal digits at the start, and the text after them.
hex_span : List ℕ → ℕ × List ℕ
hex_span [] = (0, [])
hex_span (c ∷ s) = let (n, rest) = hex_span s in if is_hex c then (suc n, rest) else (0, c ∷ s)

-- What stands after a group: `final` at the end of the text, or the next group, behind an ellipsis
-- or not. An ellipsis may stand once.
pub data Next : Type 0 where
  bad : Next
  done : (ellipsis : Bool) → Next
  ipv4_tail : Next
  group : (ellipsis : Bool) → List ℕ → Next

after_colon : Bool → List ℕ → Next
after_colon ellipsis [] = bad
after_colon ellipsis (c ∷ []) =
    if c == b':' then if ellipsis then bad else done true else group ellipsis (c ∷ [])
after_colon ellipsis (c ∷ d ∷ s) =
    if c == b':' then if ellipsis then bad else group true (d ∷ s) else group ellipsis (c ∷ d ∷ s)

after_group : Bool → List ℕ → Next
unfolding after_colon
after_group ellipsis [] = done ellipsis
after_group ellipsis (c ∷ s) =
    if c == b'.' then ipv4_tail else if c == b':' then after_colon ellipsis s else bad

next_group : Bool → List ℕ → Next
unfolding hex_span after_group
next_group ellipsis s =
    let (n, rest) = hex_span s in if n == 0 || ltb 4 n then bad else after_group ellipsis rest

-- The groups left to fill: an address has eight, and an ellipsis stands for one at least.
abbrev is_full : (left : ℕ) → (ellipsis : Bool) → Bool
is_full zero ellipsis = not ellipsis
is_full (suc n) ellipsis = ellipsis

-- The loop of parseIPv6.
ipv6_from : (left : ℕ) → (ellipsis : Bool) → List ℕ → Bool
unfolding next_group is_ipv4
ipv6_from zero ellipsis s = is_end s && not ellipsis
ipv6_from (suc left) ellipsis s = elim (next_group ellipsis s) [
  | bad ↦ false
  | done e ↦ is_full left e
  | ipv4_tail ↦ (ellipsis || left == 1) && leb 1 left && is_ipv4 s && is_full (left - 1) ellipsis
  | group e rest ↦ ipv6_from left e rest
]

is_ipv6 : List ℕ → Bool
unfolding ipv6_from
is_ipv6 [] = ipv6_from 8 false []
is_ipv6 (c ∷ []) = ipv6_from 8 false (c ∷ [])
is_ipv6 (c ∷ d ∷ s) =
    if c == b':' && d == b':' then is_end s || ipv6_from 8 true s else ipv6_from 8 false (c ∷ d ∷ s)

contains : ℕ → List ℕ → Bool
contains x [] = false
contains x (c ∷ s) = c == x || contains x s

-- The first of the three marks that `ParseAddr` looks for.
first_mark : List ℕ → Option ℕ
first_mark [] = none
first_mark (c ∷ s) = if c == b'.' || c == b':' || c == b'%' then some c else first_mark s

-- The number of bits of the address that a text stands for. An address with a zone is refused.
addr_bits : List ℕ → Option ℕ
unfolding first_mark contains is_ipv4 is_ipv6
addr_bits s = elim (first_mark s) [
  | none ↦ none
  | some m ↦
      if m == b'.'
      then if is_ipv4 s then some 32 else none
      else if m == b':' && not (contains b'%' s) && is_ipv6 s
      then some 128
      else none
]

abbrev is_some : Option ℕ → Bool
is_some none = false
is_some (some n) = true

-- net.ParseIP(s) != nil
unfoldable pub parses_ip : String → Bool
unfolding addr_bits
parses_ip s = is_some (addr_bits (codes s))

before : ℕ → List ℕ → List ℕ
before x [] = []
before x (c ∷ s) = if c == x then [] else c ∷ before x s

after : ℕ → List ℕ → Option (List ℕ)
after x [] = none
after x (c ∷ s) = if c == x then some s else after x s

number : ℕ → List ℕ → Option ℕ
number acc [] = some acc
number acc (c ∷ s) = if is_digit c then number (acc * 10 + (c - b'0')) s else none

abbrev at_most : ℕ → Option ℕ → Bool
at_most bits none = false
at_most bits (some n) = leb n bits

-- `net.ParseCIDR(s)` with no error: an address, a slash, and a prefix length that the address has.
unfoldable pub parses_cidr : String → Bool
unfolding addr_bits before after number
parses_cidr s = elim (after b'/' (codes s)) [
  | none ↦ false
  | some mask ↦ elim (addr_bits (before b'/' (codes s))) [
    | none ↦ false
    | some bits ↦ not (is_end mask) && at_most bits (number 0 mask)
  ]
]

ip_tests :
    (parses_ip "10.0.0.1" ≡ true)
    × (parses_ip "10.0.0.01" ≡ false)
    × (parses_ip "256.0.0.1" ≡ false)
    × (parses_ip "1.2.3" ≡ false)
    × (parses_ip "1.2.3.4." ≡ false)
    × (parses_ip "::" ≡ true)
    × (parses_ip "::1" ≡ true)
    × (parses_ip "2001:db8::8a2e:370:7334" ≡ true)
    × (parses_ip "1:2:3:4:5:6:7:8" ≡ true)
    × (parses_ip "1:2:3:4:5:6:7:8:9" ≡ false)
    × (parses_ip "::ffff:1.2.3.4" ≡ true)
    × (parses_ip "1::2::3" ≡ false)
    × (parses_ip "fe80::1%eth0" ≡ false)
    × (parses_ip "" ≡ false)
    × (parses_ip "not-an-ip" ≡ false)
    × (parses_ip "1:2:3:4:5:6:1.2.3.4" ≡ true)
    × (parses_ip "1:2:3:4:5:6:7::" ≡ true)
    × (parses_ip "1:2:3:4:5:6:7:8::" ≡ false)
    × (parses_ip "12345::" ≡ false)
unfolding parses_ip
ip_tests = (
  refl, refl, refl, refl, refl, refl, refl, refl, refl, refl, refl, refl, refl, refl, refl, refl,
  refl, refl, refl,
)

cidr_tests :
    (parses_cidr "10.0.0.0/8" ≡ true)
    × (parses_cidr "10.0.0.0/33" ≡ false)
    × (parses_cidr "fd00::/8" ≡ true)
    × (parses_cidr "::/129" ≡ false)
    × (parses_cidr "10.0.0.0/" ≡ false)
    × (parses_cidr "10.0.0.0" ≡ false)
    × (parses_cidr "10.0.0.0/8x" ≡ false)
unfolding parses_cidr
cidr_tests = (refl, refl, refl, refl, refl, refl, refl)

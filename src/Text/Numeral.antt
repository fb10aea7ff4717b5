-- ===== src/Text/Numeral.antt =====
-- Number(s): the numeric literals of ECMAScript, and the double next to the number that one spells.
pub mod Whole
use async_long_request_proxy.Prelude.{
  ℕ, zero, suc, ◌+◌, ◌-◌, ◌*◌, ◌/◌, ◌%◌, ◌^◌, Bool, true, false, not, ◌&&◌, ◌||◌, Option, none,
  some, List, [], ◌∷◌, ◌++◌, leb, ltb, nat_eq, length, if◌then◌else◌,
}
use async_long_request_proxy.Text.{Text, units, trim, is_digit, span_digits, value, signed}

-- A finite number is ± units / per_one, where per_one is a power of two.
pub data Number : Type 0 where
  nan : Number
  infinite : (is_negative : Bool) → Number
  finite : (is_negative : Bool) (units per_one : ℕ) → Number

-- num / den as the nearest whole number, a tie going to the even one.
unfoldable pub round_half_even : ℕ → ℕ → ℕ
round_half_even num den =
    let q = num / den in
    let twice = 2 * (num % den) in
    if ltb den twice || nat_eq twice den && nat_eq (q % 2) 1 then q + 1 else q

-- Halves the unit until 53 bits are in use, at most 1074 times.
unfoldable pub finer : ℕ → Bool → ℕ → ℕ → ℕ → Number
finer zero negative num den per_one = finite negative (round_half_even num den) per_one
finer (suc fuel) negative num den per_one =
    let next = finer fuel negative (2 * num) den (2 * per_one) in
    if leb (2 ^ 52 * den) num then finite negative (round_half_even num den) per_one else next

-- Doubles the unit until 53 bits are enough; above that the number is infinite.
abbrev pub in_range : Bool → ℕ → Number
in_range negative units =
    if leb (2 ^ 1024) units then infinite negative else finite negative units 1

unfoldable pub coarser : ℕ → Bool → ℕ → ℕ → ℕ → Number
coarser zero negative num den unit = infinite negative
coarser (suc fuel) negative num den unit =
    let next = coarser fuel negative num (2 * den) (2 * unit) in
    if ltb num (2 ^ 53 * den) then in_range negative (round_half_even num den * unit) else next

-- The double next to ± num / den.
unfoldable pub to_double : Bool → ℕ → ℕ → Number
to_double negative num den =
    if ltb num (2 ^ 53 * den) then finer 1074 negative num den 1 else coarser 972 negative num den 1

-- The digits, from the left, in a base of at most 36; `none` where another character stands.
abbrev pub digit_in : ℕ → ℕ → Option ℕ
digit_in base c =
    let d =
      if is_digit c
      then c - b'0'
      else if leb b'a' c && leb c b'z'
      then c - 87
      else if leb b'A' c && leb c b'Z'
      then c - 55
      else 36 in
    if ltb d base then some d else none

unfoldable pub value_in : ℕ → ℕ → Text → Option ℕ
value_in base n [] = some n
value_in base n (c ∷ s) = elim (digit_in base c) [
  | none ↦ none
  | some d ↦ value_in base (n * base + d) s
]

-- What follows 0x, 0o or 0b.
abbrev pub based : ℕ → Text → Number
based base [] = nan
based base (c ∷ s) = elim (value_in base 0 (c ∷ s)) [ none ↦ nan | some n ↦ to_double false n 1 ]

-- The exponent behind the digits of a decimal literal: its sign and its digits; nothing else.
abbrev pub exponent_of : Bool × Text → Option (Bool × ℕ)
exponent_of (negative, []) = none
exponent_of (negative, c ∷ s) = elim (span_digits (c ∷ s)).1 [
  | [] ↦ some (negative, value 0 (c ∷ s))
  | d ∷ rest ↦ none
]

abbrev pub exponent : Text → Option (Bool × ℕ)
exponent [] = some (false, 0)
exponent (c ∷ s) = if nat_eq c b'e' || nat_eq c b'E' then exponent_of (signed s) else none

-- A decimal literal: the digits before and after the point, and the rest.
abbrev pub scaled : Bool → Text → Text → Option (Bool × ℕ) → Number
scaled negative whole fraction none = nan
scaled negative whole fraction (some (true, e)) =
    to_double negative (value 0 (whole ++ fraction)) (10 ^ (length fraction + e))
scaled negative whole fraction (some (false, e)) =
    to_double negative (value 0 (whole ++ fraction) * 10 ^ e) (10 ^ length fraction)

abbrev pub decimal_of : Bool → Text → Text → Text → Number
decimal_of negative [] [] rest = nan
decimal_of negative whole fraction rest = scaled negative whole fraction (exponent rest)

abbrev pub after_whole : Bool → Text → Text → Number
after_whole negative whole [] = decimal_of negative whole [] []
after_whole negative whole (c ∷ s) =
    let (fraction, rest) = span_digits s in
    if nat_eq c b'.'
    then decimal_of negative whole fraction rest
    else decimal_of negative whole [] (c ∷ s)

abbrev pub decimal : Bool → Text → Number
decimal negative s = let (whole, rest) = span_digits s in after_whole negative whole rest

unfoldable pub same_text : Text → Text → Bool
same_text [] [] = true
same_text (c ∷ s) (d ∷ t) = nat_eq c d && same_text s t
same_text _ _ = false

abbrev pub with_sign : Bool × Text → Number
with_sign (negative, s) =
    if same_text s (units "Infinity") then infinite negative else decimal negative s

-- The base that a prefix names.
abbrev pub base_of : ℕ → Option ℕ
base_of c =
    if nat_eq c b'x' || nat_eq c b'X'
    then some 16
    else if nat_eq c b'o' || nat_eq c b'O'
    then some 8
    else if nat_eq c b'b' || nat_eq c b'B'
    then some 2
    else none

abbrev pub with_base : Option ℕ → Text → Text → Number
with_base none whole rest = with_sign (signed whole)
with_base (some base) whole rest = based base rest

abbrev pub literal : Text → Number
literal [] = finite false 0 1
literal (c ∷ []) = with_sign (signed (c ∷ []))
literal (c ∷ d ∷ s) = with_base (if nat_eq c b'0' then base_of d else none) (c ∷ d ∷ s) s

unfoldable pub number : Text → Number
number s = literal (trim s)

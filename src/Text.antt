-- ===== src/Text.antt =====
-- Texts whose characters the code looks at, as lists of UTF-16 code units, and what it calls on
-- them: trim, split, parseInt in base ten, and String(n) of a whole number.
pub mod Digits
pub mod Parts
pub mod Numeral
use Prim.Native.Char.{code}
use mathlib.Core.Logic.{dite}
use mathlib.Core.WellFounded.{Acc, WellFounded}
use native.Mathlib.Decide.{dec_lt}
use async_long_request_proxy.Prelude.{
  ℕ, zero, suc, ◌+◌, ◌-◌, ◌*◌, ◌/◌, ◌%◌, ◌<◌, String, Bool, true, false, ◌&&◌, ◌||◌, Option, none,
  some, List, [], ◌∷◌, leb, nat_eq, if◌then◌else◌, arith,
}

abbrev pub Text : Type 0
Text = List ℕ

-- The code units of an ASCII text.
abbrev pub units : String → Text
units String.[] = []
units (String.◌∷◌ c s) = code c ∷ units s

-- White space and line terminators of ECMAScript.
unfoldable pub is_white_space : ℕ → Bool
is_white_space c =
    leb 9 c && leb c 13
    || nat_eq c 32
    || nat_eq c 160
    || nat_eq c 5760
    || leb 8192 c && leb c 8202
    || leb 8232 c && leb c 8233
    || nat_eq c 8239
    || nat_eq c 8287
    || nat_eq c 12288
    || nat_eq c 65279

unfoldable pub trim_start : Text → Text
trim_start [] = []
trim_start (c ∷ s) = let rest = trim_start s in if is_white_space c then rest else c ∷ s

-- A character before a text that has been trimmed at its end.
abbrev pub before_end : ℕ → Text → Text
before_end c [] = if is_white_space c then [] else c ∷ []
before_end c (d ∷ s) = c ∷ d ∷ s

unfoldable pub trim_end : Text → Text
trim_end [] = []
trim_end (c ∷ s) = before_end c (trim_end s)

abbrev pub trim : Text → Text
trim s = trim_end (trim_start s)

-- The parts of `s.split(separator)`, which are never none.
abbrev pub longer : ℕ → List Text → List Text
longer c [] = (c ∷ []) ∷ []
longer c (t ∷ ts) = (c ∷ t) ∷ ts

unfoldable pub split : ℕ → Text → List Text
split separator [] = [] ∷ []
split separator (c ∷ s) =
    let parts = split separator s in if nat_eq c separator then [] ∷ parts else longer c parts

abbrev pub is_digit : ℕ → Bool
is_digit c = leb b'0' c && leb c b'9'

-- The longest prefix of digits, and what follows.
unfoldable pub span_digits : Text → Text × Text
span_digits [] = ([], [])
span_digits (c ∷ s) =
    let (digits, rest) = span_digits s in if is_digit c then (c ∷ digits, rest) else ([], c ∷ s)

-- The number that digits spell behind `n`.
unfoldable pub value : ℕ → Text → ℕ
value n [] = n
value n (c ∷ s) = value (n * 10 + (c - b'0')) s

-- A sign and a magnitude, as a number of ECMAScript has them.
pub record Signed : Type 0 where
  pub is_negative : Bool
  pub magnitude : ℕ

abbrev pub spelled : Bool → Text → Option Signed
spelled negative [] = none
spelled negative (c ∷ s) = some (record { is_negative = negative; magnitude = value 0 (c ∷ s) })

abbrev pub signed : Text → Bool × Text
signed [] = (false, [])
signed (c ∷ s) =
    if nat_eq c b'-' then (true, s) else if nat_eq c b'+' then (false, s) else (false, c ∷ s)

-- parseInt(s, 10): the digits that `s` begins with; `none` is NaN.
unfoldable pub parse_int : Text → Option Signed
parse_int s = let (negative, rest) = signed (trim_start s) in spelled negative (span_digits rest).0

acc_below : (k n : ℕ) → n < k → Acc ◌<◌ n
acc_below zero n h = elim h [ ]
acc_below (suc k) n h = Acc.intro n (λ m lt. acc_below k m (omega arith))

unfoldable pub lt_wf : WellFounded ◌<◌
unfolding acc_below
lt_wf = record { apply = λ n. acc_below (suc n) n (omega arith) }

unfoldable pub emit : (n : ℕ) → Acc ◌<◌ n → Text → Text
emit n (Acc.intro _ smaller) out =
    dite (dec_lt 9 n) (λ h. emit (n / 10) (smaller (n / 10) (omega arith)) ((b'0' + n % 10) ∷ out))
      (λ _. (b'0' + n) ∷ out)

-- String(n) of a whole number below 10 ^ 21.
unfoldable pub to_text : ℕ → Text
unfolding emit lt_wf dec_lt
to_text n = emit n (lt_wf.apply n) []

-- ===== src/Text/Numeral/Whole.antt =====
-- Number(String(n)) is n.
use mathlib.Core.Path.{subst}
use mathlib.Core.List.{append-nil}
use native.Mathlib.Nat.{mul-one}
use async_long_request_proxy.Prelude.{
  ℕ, zero, suc, ◌*◌, ◌^◌, ◌<◌, ◌≡◌, refl, sym, ap, ◌∙◌, Bool, true, false, none, [], ◌∷◌, leb, ltb,
  nat_eq, All, if◌then◌else◌, if_rule, arith,
}
use async_long_request_proxy.Text.{Text, trim_end, trim, value, signed, to_text, units}
use async_long_request_proxy.Text.Digits.{
  IsDigit, span_digits-All, digit_lem, trim_start-digit, to_text-cons, to_text-IsDigit,
  value-to_text,
}
use async_long_request_proxy.Text.Parts.{before_end-dense}
use async_long_request_proxy.Text.Numeral.{
  Number, finite, round_half_even, finer, to_double, same_text, with_sign, with_base, base_of,
  literal, number,
}

-- A double that is the whole number `n`.
abbrev pub IsWhole : ℕ → Number → Type 0
IsWhole n x = (p : ℕ) × (0 < p) × (x ≡ finite false (n * p) p)

round_half_even_one : (a : ℕ) → round_half_even a 1 ≡ a
unfolding round_half_even
round_half_even_one a = ground arith

finer-IsWhole : (fuel n m p : ℕ) → 0 < p → m ≡ n * p → IsWhole n (finer fuel false m 1 p)
unfolding finer
finer-IsWhole zero n m p h e = (p, h, ap (λ u. finite false u p) (round_half_even_one m ∙ e))
finer-IsWhole (suc fuel) n m p h e =
    if_rule (IsWhole n) (leb (2 ^ 52 * 1) m) _ _
      (λ _. (p, h, ap (λ u. finite false u p) (round_half_even_one m ∙ e)))
      (λ _. finer-IsWhole fuel n (2 * m) (2 * p) (omega (arith, h)) (grind (arith, e)))

to_double-IsWhole : (n : ℕ) → n < 2 ^ 53 → IsWhole n (to_double false n 1)
unfolding to_double
to_double-IsWhole n h =
    if_rule (IsWhole n) (ltb n (2 ^ 53 * 1)) _ _
      (λ _. finer-IsWhole 1074 n n 1 (omega arith) (sym (mul-one n))) (λ f. ground (arith, f, h))

not_infinity : (d : ℕ) (ds : Text) → IsDigit d → same_text (d ∷ ds) (units "Infinity") ≡ false
unfolding same_text
not_infinity d ds h = ground (arith, h)

with_sign-digits :
    (d : ℕ) (ds : Text)
    → All IsDigit (d ∷ ds)
    → with_sign (signed (d ∷ ds)) ≡ to_double false (value 0 (d ∷ ds)) 1
with_sign-digits d ds h =
    let (_, minus, plus) = digit_lem d h.0 in
    let other = not_infinity d ds h.0 in
    rw (minus, plus, other, span_digits-All (d ∷ ds) h, append-nil, mul-one) refl

base_of-digit : (c : ℕ) → IsDigit c → base_of c ≡ none
base_of-digit c h = ground (arith, h)

no_base : (b : Bool) (c : ℕ) → IsDigit c → (if b then base_of c else none) ≡ none
no_base true c h = base_of-digit c h
no_base false c h = refl

literal-digits :
    (d : ℕ) (ds : Text)
    → All IsDigit (d ∷ ds)
    → literal (d ∷ ds) ≡ to_double false (value 0 (d ∷ ds)) 1
literal-digits d [] h = with_sign-digits d [] h
literal-digits d (e ∷ ds) h =
    ap (λ o. with_base o (d ∷ e ∷ ds) ds) (no_base (nat_eq d b'0') e h.1.0)
    ∙ with_sign-digits d (e ∷ ds) h

trim_end-digits : (s : Text) → All IsDigit s → trim_end s ≡ s
unfolding trim_end
trim_end-digits [] h = refl
trim_end-digits (c ∷ s) h =
    let (dense, _, _) = digit_lem c h.0 in rw (trim_end-digits s h.1) (before_end-dense c s dense)

-- Below 2 ^ 53, a whole number is read back exactly.
pub number-to_text : (n : ℕ) → n < 2 ^ 53 → IsWhole n (number (to_text n))
unfolding number
number-to_text n h =
    let (d, ds, e) = to_text-cons n in
    let digits = subst (All IsDigit) e (to_text-IsDigit n) in
    let spelled : value 0 (d ∷ ds) ≡ n = ap (value 0) (sym e) ∙ value-to_text n in
    let trimmed : trim (d ∷ ds) ≡ d ∷ ds =
      ap trim_end (trim_start-digit d ds digits.0) ∙ trim_end-digits (d ∷ ds) digits in
    let read : literal (trim (to_text n)) ≡ to_double false n 1 =
      rw (e, trimmed) (literal-digits d ds digits ∙ ap (λ k. to_double false k 1) spelled) in
    subst (IsWhole n) (sym read) (to_double-IsWhole n h)

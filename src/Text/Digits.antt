-- ===== src/Text/Digits.antt =====
-- A whole number is read back from its print.
use mathlib.Core.Path.{subst}
use mathlib.Core.Logic.{dite}
use mathlib.Core.WellFounded.{Acc}
use native.Mathlib.Decide.{dec_lt}
use async_long_request_proxy.Prelude.{
  ℕ, ◌+◌, ◌*◌, ◌/◌, ◌%◌, ◌<◌, ◌≡◌, refl, ◌∙◌, ap, true, false, some, [], ◌∷◌, nat_eq, All, arith,
}
use async_long_request_proxy.Text.{
  Text, is_digit, span_digits, is_white_space, trim_start, value, parse_int, emit, to_text, lt_wf,
}

abbrev pub IsDigit : ℕ → Type 0
IsDigit c = is_digit c ≡ true

pub span_digits-All : (s : Text) → All IsDigit s → span_digits s ≡ (s, [])
unfolding span_digits
span_digits-All [] h = refl
span_digits-All (c ∷ s) h = rw (span_digits-All s h.1, h.0) refl

dite_rule :
    {A X : Type 0} (P : A → Type 0) (d : Dec X) (t : X → A) (e : ¬ X → A)
    → ((h : X) → P (t h))
    → ((h : ¬ X) → P (e h))
    → P (dite d t e)
dite_rule P (yes h) t e f g = f h
dite_rule P (no h) t e f g = g h

IsDigit-of : (n : ℕ) → n < 10 → IsDigit (b'0' + n)
IsDigit-of n h = ground arith

value_digit :
    (m n k : ℕ) (s : Text) → n < 10 → m * 10 + n ≡ k → value m ((b'0' + n) ∷ s) ≡ value k s
unfolding value
value_digit m n k s h e = ap (λ j. value j s) (omega arith)

-- What `emit` puts before `out`: at least one digit; together they spell `n`.
abbrev pub IsSpelled : ℕ → Text → Text → Type 0
IsSpelled n out s =
    ((d : ℕ) × (ds : Text) × (s ≡ d ∷ ds))
    × (All IsDigit out → All IsDigit s)
    × (value 0 s ≡ value n out)

emit-IsSpelled : (n : ℕ) (w : Acc ◌<◌ n) (out : Text) → IsSpelled n out (emit n w out)
unfolding emit
emit-IsSpelled n (Acc.intro _ smaller) out =
    dite_rule (IsSpelled n out) (dec_lt 9 n) _ _
      (λ h.
        let last = (b'0' + n % 10) ∷ out in
        let less : n / 10 < n = omega (arith, h) in
        let whole : n / 10 * 10 + n % 10 ≡ n = omega arith in
        let rest = emit-IsSpelled (n / 10) (smaller (n / 10) less) last in
        (
          rest.0,
          (λ o. rest.1 (IsDigit-of (n % 10) (omega arith), o)),
          rest.2 ∙ value_digit (n / 10) (n % 10) n out (omega arith) whole,
        ))
      (λ h. (
        (b'0' + n, out, refl),
        (λ o. (IsDigit-of n (omega arith), o)),
        value_digit 0 n n out (omega arith) (omega arith),
      ))

pub to_text-IsSpelled : (n : ℕ) → IsSpelled n [] (to_text n)
unfolding to_text
to_text-IsSpelled n = emit-IsSpelled n (lt_wf.apply n) []

pub value-to_text : (n : ℕ) → value 0 (to_text n) ≡ n
value-to_text n = let (_, _, e) = to_text-IsSpelled n in unfold value in e

pub to_text-IsDigit : (n : ℕ) → All IsDigit (to_text n)
to_text-IsDigit n = let (_, f, _) = to_text-IsSpelled n in f tt

pub digit_lem :
    (c : ℕ)
    → IsDigit c
    → (is_white_space c ≡ false) × (nat_eq c b'-' ≡ false) × (nat_eq c b'+' ≡ false)
unfolding is_white_space
digit_lem c h = ground (arith, h)

-- A digit begins neither with white space nor with a sign.
pub trim_start-digit : (d : ℕ) (ds : Text) → IsDigit d → trim_start (d ∷ ds) ≡ d ∷ ds
unfolding trim_start
trim_start-digit d ds h = let (a, _, _) = digit_lem d h in rw a refl

parse_int-digits :
    (d : ℕ) (ds : Text)
    → All IsDigit (d ∷ ds)
    → parse_int (d ∷ ds) ≡ some (record { is_negative = false; magnitude = value 0 (d ∷ ds) })
unfolding parse_int
parse_int-digits d ds h =
    let (_, minus, plus) = digit_lem d h.0 in
    rw (trim_start-digit d ds h.0, minus, plus, span_digits-All (d ∷ ds) h) refl

pub parse_int-to_text :
    (n : ℕ) → parse_int (to_text n) ≡ some (record { is_negative = false; magnitude = n })
parse_int-to_text n =
    let ((d, ds, e), f, v) = to_text-IsSpelled n in
    rw e (parse_int-digits d ds (subst (All IsDigit) e (f tt)))
    ∙ ap (λ k. some (record { is_negative = false; magnitude = k })) (value-to_text n)

pub to_text-cons : (n : ℕ) → (d : ℕ) × (ds : Text) × (to_text n ≡ d ∷ ds)
to_text-cons n = let (c, _, _) = to_text-IsSpelled n in c

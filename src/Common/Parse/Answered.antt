-- ===== src/Common/Parse/Answered.antt =====
-- A body that is refused is answered 400, and strict schemas are made once.
use async_long_request_proxy.Prelude.{
  ℕ, ◌≡◌, refl, String, not, ◌||◌, none, some, [], ◌∷◌, ◌++◌, List, Option-cases, Bool-cases, inl,
  inr, arith,
}
use async_long_request_proxy.Text.{units}
use async_long_request_proxy.Tasks.Schema.{Json}
use async_long_request_proxy.Common.ExceptionFilter.{
  format_branch, resolve_exception, Level, level_of,
}
use async_long_request_proxy.Common.ExceptionFilter.Answer.{status_to_text, catch_exception}
use async_long_request_proxy.Common.Parse.{
  Schema, Validator, StrictCache, find_strict, get_strict_schema, Parsed, value, issues,
  other_error, Param, param, throws, caught, parse_body,
}

-- The value that zod gives, or the answer 400 with the issues that zod found, if it found some.
abbrev pub IsAnswered : (url now : String) → Parsed → Param → Type 0
IsAnswered url now (value v) p = p ≡ param v
IsAnswered url now (issues b) (param v) = ⊥
IsAnswered url now (issues b) (throws e) =
    let a = catch_exception url now e in
    (a.status ≡ 400)
    × (a.body.status_code ≡ 400)
    × (a.body.error ≡ units "Bad Request")
    × (a.body.message ≡ "Validation failed")
    × (a.body.issues ≡ some (format_branch b))
    × (a.level ≡ Level.warn)
IsAnswered url now other_error (param v) = ⊥
IsAnswered url now other_error (throws e) =
    let a = catch_exception url now e in
    (a.status ≡ 400)
    × (a.body.status_code ≡ 400)
    × (a.body.error ≡ units "Bad Request")
    × (a.body.message ≡ "Validation failed")
    × (a.body.issues ≡ none)
    × (a.level ≡ Level.warn)

caught-IsAnswered : (url now : String) (r : Parsed) → IsAnswered url now r (caught r)
unfolding catch_exception resolve_exception status_to_text level_of
caught-IsAnswered url now (value v) = refl
caught-IsAnswered url now (issues b) = (refl, refl, refl, refl, refl, refl)
caught-IsAnswered url now other_error = (refl, refl, refl, refl, refl, refl)

find_strict-append :
    (n v : ℕ) (vs : List (ℕ × ℕ))
    → find_strict n vs ≡ none
    → find_strict n (vs ++ (n, v) ∷ []) ≡ some v
unfolding find_strict
find_strict-append n v [] h = ground arith
find_strict-append n v ((k, w) ∷ vs) h = ground (arith, h, find_strict-append n v vs)

get_strict_schema_twice :
    (schema : Schema) (s : StrictCache)
    → get_strict_schema schema (get_strict_schema schema s).1 ≡ get_strict_schema schema s
unfolding get_strict_schema
get_strict_schema_twice schema s = elim (Bool-cases (schema.skip_strict || not schema.has_strict)) [
  | inl b ↦ rw b refl
  | inr b ↦ elim (Option-cases (find_strict schema.number s.cached)) [
    | inl n ↦ rw (b, n) (rw (find_strict-append schema.number s.made s.cached n) refl)
    | inr (v, f) ↦ rw (b, f) (rw f refl)
  ]
]

-- A handler is given the value that zod returns for the body, by the schema or by its strict form.
-- If zod throws, the filter answers 400 "Bad Request" with the message "Validation failed", logged
-- as a warning, and with the formatted issues exactly if zod threw a ZodError. Parsing another
-- body by the same schema uses the same validator, and makes no strict schema again.
pub parse_body-IsAnswered :
    (parse : Validator → Json → Parsed) (url now : String) (schema : Schema) (body : Json)
    (s : StrictCache)
    → let (validator, s') = get_strict_schema schema s in
      let (p, after) = parse_body parse schema body s in
      IsAnswered url now (parse validator body) p
      × (after ≡ s')
      × (get_strict_schema schema s' ≡ (validator, s'))
unfolding parse_body
parse_body-IsAnswered parse url now schema body s = (
  caught-IsAnswered url now (parse (get_strict_schema schema s).0 body),
  refl,
  get_strict_schema_twice schema s,
)

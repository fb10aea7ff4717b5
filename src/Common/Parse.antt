-- ===== src/Common/Parse.antt =====
-- src/common/decorators/parse.decorators.ts: the parsing of bodies, queries and parameters. zod's
-- `parse` is a parameter. A schema is an object, so it has a number; the strict schemas that are
-- made of it have numbers of their own. What Swagger is told is not modelled.
pub mod Answered
use async_long_request_proxy.Prelude.{
  ℕ, suc, String, Bool, true, false, not, ◌||◌, Option, none, some, List, [], ◌∷◌, ◌++◌, nat_eq,
  if◌then◌else◌,
}
use async_long_request_proxy.Tasks.Schema.{Json}
use async_long_request_proxy.Common.ExceptionFilter.{
  RawBranch, Exception, http_exception, zod_error,
}

-- A schema, whether `allowUnknown` has marked it, and whether it has the method `strict`.
pub record Schema : Type 0 where
  pub number : ℕ
  pub skip_strict : Bool
  pub has_strict : Bool

-- allowUnknown
abbrev pub allow_unknown : Schema → Schema
allow_unknown schema = record schema { skip_strict = true }

pub data Validator : Type 0 where
  given : ℕ → Validator
  strict : ℕ → Validator

-- `strictSchemaCache`: the number of the strict schema of each schema; and how many were made.
pub record StrictCache : Type 0 where
  pub cached : List (ℕ × ℕ)
  pub made : ℕ

unfoldable pub find_strict : ℕ → List (ℕ × ℕ) → Option ℕ
find_strict n [] = none
find_strict n ((k, v) ∷ rest) = if nat_eq k n then some v else find_strict n rest

abbrev pub cached_or_made : ℕ → StrictCache → Option ℕ → Validator × StrictCache
cached_or_made n s (some v) = (strict v, s)
cached_or_made n s none =
    (strict s.made, record { cached = s.cached ++ (n, s.made) ∷ []; made = suc s.made })

unfoldable pub get_strict_schema : Schema → StrictCache → Validator × StrictCache
get_strict_schema schema s =
    if schema.skip_strict || not schema.has_strict
    then (given schema.number, s)
    else cached_or_made schema.number s (find_strict schema.number s.cached)

-- What zod's `parse` does: it returns the value, or throws a ZodError, or anything else.
pub data Parsed : Type 0 where
  value : Json → Parsed
  issues : RawBranch → Parsed
  other_error : Parsed

-- What the handler is given, or what is thrown.
pub data Param : Type 0 where
  param : Json → Param
  throws : Exception → Param

-- A ZodError passes; everything else becomes a BadRequestException.
abbrev pub caught : Parsed → Param
caught (value v) = param v
caught (issues b) = throws (zod_error b)
caught other_error = throws (http_exception 400 "Validation failed" (some "Validation failed"))

module _ (parse : Validator → Json → Parsed) where
  unfoldable pub parse_body : Schema → Json → StrictCache → Param × StrictCache
  parse_body schema body s =
      let (validator, s') = get_strict_schema schema s in (caught (parse validator body), s')

  unfoldable pub parse_query : Schema → Json → Param
  parse_query schema query = caught (parse (given schema.number) query)

  unfoldable pub parse_params : Schema → Json → Param
  parse_params schema params = caught (parse (given schema.number) params)

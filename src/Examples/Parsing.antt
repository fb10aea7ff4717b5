-- ===== src/Examples/Parsing.antt =====
-- The parsing of a body at a concrete schema, whose validator finds one issue.
use async_long_request_proxy.Prelude.{◌≡◌, false, true, [], ◌∷◌}
use async_long_request_proxy.Tasks.Schema.{Json}
use async_long_request_proxy.Common.ExceptionFilter.{
  RawBranch, raw_issue, no_errors, raw_also, raw_branch_end,
}
use async_long_request_proxy.Common.Parse.{
  Schema, Validator, given, strict, StrictCache, get_strict_schema, Parsed, value, issues,
  find_strict, parse_body,
}
use async_long_request_proxy.Common.Parse.Answered.{IsAnswered, parse_body-IsAnswered}

abbrev body_schema : Schema
body_schema = record { number = 7; skip_strict = false; has_strict = true }

-- Schema 4 has a strict form, which is the first that was made.
abbrev one_cached : StrictCache
one_cached = record { cached = (4, 0) ∷ []; made = 1 }

abbrev one_issue : RawBranch
one_issue =
    raw_also (raw_issue "unrecognized_keys" ("extra" ∷ []) "Unrecognized key" no_errors)
      raw_branch_end

-- The strict forms refuse the body.
abbrev parse_strictly : Validator → Json → Parsed
parse_strictly (given n) v = value v
parse_strictly (strict n) v = issues one_issue

parse_body-IsAnswered_example :
    IsAnswered "/tasks" "2026-01-01T00:00:00.000Z"
      (issues one_issue)
      (parse_body parse_strictly body_schema "{\"extra\":1}" one_cached).0
    × ((parse_body parse_strictly body_schema "{\"extra\":1}" one_cached).1
        ≡ record { cached = (4, 0) ∷ (7, 1) ∷ []; made = 2 })
    × (get_strict_schema body_schema (record { cached = (4, 0) ∷ (7, 1) ∷ []; made = 2 })
        ≡ (strict 1, record { cached = (4, 0) ∷ (7, 1) ∷ []; made = 2 }))
unfolding parse_body get_strict_schema find_strict
parse_body-IsAnswered_example =
    parse_body-IsAnswered parse_strictly "/tasks" "2026-01-01T00:00:00.000Z" body_schema
      "{\"extra\":1}" one_cached

-- ===== src/Examples/Answering.antt =====
-- What the HTTP layer answers and logs, at concrete inputs.
use Prim.Native.String.{len}
use async_long_request_proxy.Prelude.{
  ℕ, ◌≡◌, ◌↔◌, ◌⊎◌, ◌≤◌, String, true, false, none, some, List, [], ◌∷◌, length, truthy,
}
use async_long_request_proxy.Result.{ok}
use async_long_request_proxy.Common.ExceptionFilter.{
  ValidationIssue, validation_issue, no_union, Branches, branches_end, branch, branch_end, also,
  deduplicate,
}
use async_long_request_proxy.Common.ExceptionFilter.Distinct.{
  keys_of, distinct, NoneEmpty, deduplicate-distinct,
}
use async_long_request_proxy.Common.HttpLogger.{
  warn_entry, ResponseEvent, finish, close, no_entries, on_responses, first_entry, write_log,
  on_responses_lem,
}
use async_long_request_proxy.Common.ApiKey.{ClientRequest, api_key_guard}
use async_long_request_proxy.Common.ApiKey.Checked.{HasKey, api_key_guard_lem}

abbrev missing : ValidationIssue
missing = validation_issue "status" "Required" "invalid_type" no_union

abbrev two_branches : Branches
two_branches = branch (also missing branch_end) (branch (also missing branch_end) branches_end)

deduplicate-distinct_example :
    (keys_of (deduplicate two_branches) ≡ distinct [] (keys_of two_branches))
    × NoneEmpty (deduplicate two_branches)
deduplicate-distinct_example = deduplicate-distinct two_branches

abbrev ended : List ResponseEvent
ended = finish 404 ∷ close true ∷ close false ∷ []

logged_once :
    ((on_responses ended no_entries).entries ≡ first_entry ended)
    × (length (on_responses ended no_entries).entries ≤ 1)
logged_once = on_responses_lem ended

one_warning : (on_responses ended no_entries).entries ≡ warn_entry ∷ []
unfolding first_entry write_log
one_warning = logged_once.0

abbrev bytes : String → List ℕ
bytes s = len s ∷ []

abbrev client : ClientRequest
client = record { x_api_key = some "key"; authorization = none }

api_key_guard_lem_example :
    api_key_guard bytes (some "key") client ≡ ok true
    ↔ (truthy (some "key") ≡ none) ⊎ HasKey bytes (some "key") client
api_key_guard_lem_example = api_key_guard_lem bytes (some "key") client

-- ===== src/Common/ApiKey.antt =====
-- src/common/guards/api-key.guard.ts: the key of the clients. `Buffer.from` is a parameter.
pub mod Bearer
pub mod Checked
use async_long_request_proxy.Prelude.{
  ℕ, String, Bool, true, false, not, ◌&&◌, ◌||◌, Option, none, some, List, nat_eq, length, truthy,
  if◌then◌else◌,
}
use async_long_request_proxy.Result.{Error, unauthorized, Result, ok, err}
use async_long_request_proxy.Executor.Guard.{timing_safe_equal}
use async_long_request_proxy.Common.ApiKey.Bearer.{drop_bearer}

-- The headers that the guard reads.
pub record ClientRequest : Type 0 where
  pub x_api_key : Option String
  pub authorization : Option String

abbrev pub bearer_key : Option String → Option String
bearer_key none = none
bearer_key (some auth) = some (drop_bearer auth)

-- request.header('X-API-Key') || request.header('Authorization')?.replace(...), and not empty.
unfoldable pub provided_key : ClientRequest → Option String
provided_key req = elim (truthy req.x_api_key) [
  | some key ↦ some key
  | none ↦ truthy (bearer_key req.authorization)
]

module _ (bytes : String → List ℕ) where
  -- The constructor's `expectedKeyBuffer`.
  abbrev pub expected_key : Option String → Option (List ℕ)
  expected_key key = elim (truthy key) [ none ↦ none | some k ↦ some (bytes k) ]

  abbrev pub check_key : List ℕ → List ℕ → Result Bool
  check_key expected provided =
      if not (nat_eq (length expected) (length provided))
        || not (timing_safe_equal expected provided)
      then err unauthorized
      else ok true

  unfoldable pub api_key_guard : Option String → ClientRequest → Result Bool
  api_key_guard proxy_api_key req = elim (expected_key proxy_api_key) [
    | none ↦ ok true
    | some expected ↦ elim (provided_key req) [
      | none ↦ err unauthorized
      | some key ↦ check_key expected (bytes key)
    ]
  ]

-- ===== src/Common/RequestId.antt =====
-- src/common/middleware/request-id.middleware.ts
use async_long_request_proxy.Prelude.{String, ◌==◌, List, if◌then◌else◌}

-- The request's header: not there, a text, or several.
pub data Header : Type 0 where
  missing : Header
  single : String → Header
  several : List String → Header

-- The id in the request's header and in the response's after the middleware.
pub record Ids : Type 0 where
  pub request : String
  pub response : String

abbrev pub request_id : (random_uuid : String) → Header → String
request_id random_uuid missing = random_uuid
request_id random_uuid (single s) = if s == "" then random_uuid else s
request_id random_uuid (several ss) = random_uuid

unfoldable pub use_request_id : (random_uuid : String) → Header → Ids
use_request_id random_uuid incoming =
    let id = request_id random_uuid incoming in record { request = id; response = id }

-- ===== src/Common/ExceptionFilter/Answer.antt =====
-- src/common/exceptions/zod-exception.filter.ts: the answer to an exception, and its log entry.
use async_long_request_proxy.Prelude.{ℕ, String, Option, nat_eq, ◌++◌, if◌then◌else◌}
use async_long_request_proxy.Text.{Text, units, to_text}
use async_long_request_proxy.Common.ExceptionFilter.{
  Branch, Exception, resolve_exception, Level, level_of,
}

unfoldable pub status_to_text : ℕ → Text
status_to_text status =
    if nat_eq status 400
    then units "Bad Request"
    else if nat_eq status 401
    then units "Unauthorized"
    else if nat_eq status 403
    then units "Forbidden"
    else if nat_eq status 404
    then units "Not Found"
    else if nat_eq status 409
    then units "Conflict"
    else if nat_eq status 422
    then units "Unprocessable Entity"
    else if nat_eq status 429
    then units "Too Many Requests"
    else if nat_eq status 500
    then units "Internal Server Error"
    else if nat_eq status 502
    then units "Bad Gateway"
    else if nat_eq status 503
    then units "Service Unavailable"
    else units "HTTP " ++ to_text status

pub record ErrorBody : Type 0 where
  pub status_code : ℕ
  pub error : Text
  pub message : String
  pub path : String
  pub timestamp : String
  pub issues : Option Branch

-- The response's status and body, and the level of the entry.
pub record Answer : Type 0 where
  pub status : ℕ
  pub body : ErrorBody
  pub level : Level

unfoldable pub catch_exception : (url now : String) → Exception → Answer
catch_exception url now exception =
    let resolved = resolve_exception exception in
    record {
      status = resolved.status;
      body = record {
        status_code = resolved.status;
        error = status_to_text resolved.status;
        message = resolved.message;
        path = url;
        timestamp = now;
        issues = resolved.issues;
      };
      level = level_of resolved.status;
    }

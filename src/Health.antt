-- ===== src/Health.antt =====
-- libs/observability: the two health indicators (postgres.health.ts, redis.health.ts), each a race
-- of a query against a timer of two seconds, and the readiness check over both.
pub mod Ready
use async_long_request_proxy.Prelude.{
  ℕ, String, Bool, true, false, ◌&&◌, Option, none, some, List, [], ◌∷◌, ltb, if◌then◌else◌,
}

-- What becomes of the query: after some milliseconds it is answered or fails, with the message of
-- its error if it throws an Error, or it hangs.
pub data Query : Type 0 where
  answers : (after : ℕ) → Query
  fails : (after : ℕ) (message : Option String) → Query
  hangs : Query

pub data Indicator : Type 0 where
  up : Indicator
  down : (message : String) → Indicator

abbrev pub message_of : Option String → String
message_of none = "Unknown error"
message_of (some message) = message

-- Promise.race: the query counts if it settles before the timer fires.
unfoldable pub is_healthy : String → Query → Indicator
is_healthy timed_out (answers after) = if ltb after 2000 then up else down timed_out
is_healthy timed_out (fails after message) =
    if ltb after 2000 then down (message_of message) else down timed_out
is_healthy timed_out hangs = down timed_out

abbrev pub postgres_is_healthy : Query → Indicator
postgres_is_healthy = is_healthy "PostgreSQL check timed out after 2s"

abbrev pub redis_is_healthy : Query → Indicator
redis_is_healthy = is_healthy "Redis check timed out after 2s"

abbrev pub is_up : Indicator → Bool
is_up up = true
is_up (down message) = false

-- GET /health/ready: ok if every indicator is up.
unfoldable pub ready : Query → Query → Bool
ready postgres redis = is_up (postgres_is_healthy postgres) && is_up (redis_is_healthy redis)

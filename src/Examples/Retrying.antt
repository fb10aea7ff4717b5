-- ===== src/Examples/Retrying.antt =====
-- The HTTP client at concrete inputs.
use async_long_request_proxy.Prelude.{
  ℕ, ◌+◌, ◌-◌, ◌*◌, ◌^◌, ◌≤◌, ◌<◌, ◌≡◌, refl, none, some, [], ◌∷◌, nat_eq, min, arith,
  if◌then◌else◌,
}
use async_long_request_proxy.Result.{ok}
use async_long_request_proxy.HttpRetry.{
  default_options, Reply, failure, success, start, post, is_retryable_status, compute_delay,
}
use async_long_request_proxy.HttpRetry.Attempts.{delay_at, post_error, IsHttpResult}
use async_long_request_proxy.HttpRetry.Delays.{delays_from, post_delays, delay_at-bounds}

abbrev busy_once : ℕ → Reply
busy_once i =
    if nat_eq i 0 then failure (record { status = some 503; code = none }) else success "ok"

abbrev jitter : ℕ → ℕ
jitter i = 17

-- One retry after 517 ms.
busy_once_run :
    post default_options busy_once jitter start
    ≡ (ok "ok", record { requests = 2; delays = 517 ∷ [] })
unfolding post is_retryable_status compute_delay
busy_once_run = refl

given_up : IsHttpResult (post default_options busy_once jitter start).0
given_up = post_error default_options busy_once jitter

post_delays_example :
    (post default_options busy_once jitter start).1.delays
    ≡ delays_from default_options busy_once jitter 0
        ((post default_options busy_once jitter start).1.requests - 1)
post_delays_example = post_delays default_options busy_once jitter

delay_at-bounds_example :
    (min (500 * 2 ^ 3) 30000 ≤ delay_at default_options busy_once jitter 3)
    × (delay_at default_options busy_once jitter 3 ≤ 30000)
    × (delay_at default_options busy_once jitter 3 < 500 * 2 ^ 3 + 200)
delay_at-bounds_example = delay_at-bounds default_options busy_once jitter 3 (omega arith)

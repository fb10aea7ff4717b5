-- ===== src/HttpRetry.antt =====
-- libs/http-retry: the POST client with exponential backoff. The replies of the destination and
-- the random jitter are arguments, one for each attempt; the state is what the loop has done.
pub mod Attempts
pub mod Delays
use async_long_request_proxy.Prelude.{
  ℕ, zero, suc, ◌+◌, ◌*◌, ◌^◌, String, Bool, true, false, Option, none, some, List, [], ◌∷◌, ◌++◌,
  ◌==◌, nat_eq, min, any, if◌then◌else◌,
}
use async_long_request_proxy.Result.{Error, Result, ok, err, dispatch_failed, non_retryable, App}
use async_long_request_proxy.Tasks.Schema.{Json}

pub record HttpRetryOptions : Type 0 where
  pub attempts : ℕ
  pub base_delay_ms : ℕ
  pub max_delay_ms : ℕ

-- The defaults of `post`.
abbrev pub default_options : HttpRetryOptions
default_options = record { attempts = 3; base_delay_ms = 500; max_delay_ms = 30000 }

-- What is thrown instead of a response: its status, if it carries one, and its error code.
pub record HttpFailure : Type 0 where
  pub status : Option ℕ
  pub code : Option String

pub data Reply : Type 0 where
  success : Json → Reply
  failure : HttpFailure → Reply

abbrev retryable_status_codes : List ℕ
retryable_status_codes = 429 ∷ 500 ∷ 502 ∷ 503 ∷ 504 ∷ []

abbrev retryable_network_codes : List String
retryable_network_codes =
    "ECONNREFUSED" ∷ "ECONNRESET" ∷ "ETIMEDOUT" ∷ "ENOTFOUND" ∷ "ECONNABORTED" ∷ "ERR_NETWORK" ∷ []

unfoldable pub is_retryable_status : ℕ → Bool
is_retryable_status s = any (nat_eq s) retryable_status_codes

unfoldable pub is_retryable_network_error : HttpFailure → Bool
is_retryable_network_error f = elim f.code [
  | none ↦ false
  | some c ↦ any (λ d. c == d) retryable_network_codes
]

unfoldable pub compute_delay : ℕ → ℕ → ℕ → ℕ → ℕ
compute_delay attempt base_delay_ms max_delay_ms jitter =
    min (base_delay_ms * 2 ^ attempt + jitter) max_delay_ms

-- What the loop has done: the requests sent, and the delays slept, in order.
pub record Progress : Type 0 where
  pub requests : ℕ
  pub delays : List ℕ

abbrev pub start : Progress
start = record { requests = 0; delays = [] }

-- What the `catch` block makes of a failure: an error to throw, or the last status code seen.
pub data Verdict : Type 0 where
  throw : Error → Verdict
  go_on : Option ℕ → Verdict

unfoldable pub judge : ℕ → Option ℕ → HttpFailure → Verdict
judge attempt last_status f = elim f.status [
  | some s ↦ if is_retryable_status s then go_on (some s) else throw (non_retryable s)
  | none ↦
      if is_retryable_network_error f
      then go_on last_status
      else throw (dispatch_failed (attempt + 1) none)
]

module _ (opts : HttpRetryOptions) (reply : ℕ → Reply) (jitter : ℕ → ℕ) where
  -- The `for` loop, on the rounds that are left.
  unfoldable pub post_from : ℕ → ℕ → Option ℕ → App Progress Json
  post_from zero attempt last_status p = (err (dispatch_failed opts.attempts last_status), p)
  post_from (suc rounds) attempt last_status p =
      let sent = record p { requests = p.requests + 1 } in
      elim (reply attempt) [
        | success answer ↦ (ok answer, sent)
        | failure f ↦ elim (judge attempt last_status f) [
          | throw e ↦ (err e, sent)
          | go_on last ↦
              let delay =
                compute_delay attempt opts.base_delay_ms opts.max_delay_ms (jitter attempt) in
              let rest =
                post_from rounds (attempt + 1) last
                  (record sent { delays = p.delays ++ delay ∷ [] }) in
              if nat_eq (attempt + 1) opts.attempts
              then (err (dispatch_failed opts.attempts last), sent)
              else rest
        ]
      ]

  unfoldable pub post : App Progress Json
  unfolding post_from judge
  post = post_from opts.attempts 0 none

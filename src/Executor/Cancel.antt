-- ===== src/Executor/Cancel.antt =====
-- src/modules/executor/workers/cancel.processor.ts: the consumer of the `cancel` queue.
pub mod Notified
use async_long_request_proxy.Prelude.{ℕ, String, Option, none, some, truthy}
use async_long_request_proxy.Result.{Result, ok, err, non_retryable, App, ◌>>=◌, Outcome, perform}
use async_long_request_proxy.Tasks.Schema.{Json, TaskSelect}
use async_long_request_proxy.HttpRetry.{HttpRetryOptions, default_options, Reply, start, post}
use async_long_request_proxy.World.{read_task, World, cancel_request, send}
use async_long_request_proxy.Executor.Dispatch.{token_or_empty}

abbrev pub cancel_options : HttpRetryOptions
cancel_options = record default_options { attempts = 2; base_delay_ms = 1000 }

-- The `catch` block: each error is logged, a NonRetryableError with its status, and swallowed.
abbrev pub swallow : Result Json → App World Unit
swallow (ok answer) w = (ok tt, w)
swallow (err (non_retryable status)) w = (ok tt, w)
swallow (err e) w = (ok tt, w)

module _ (reply : ℕ → Reply) (jitter : ℕ → ℕ) where
  abbrev pub notify : String → TaskSelect → Option String → App World Unit
  notify task_id task none w = (ok tt, w)
  notify task_id task (some url) w =
      let posted = post cancel_options reply jitter start in
      swallow posted.0
        (send (cancel_request url task_id (token_or_empty task.callback_token)) posted w)

  -- `if (!task?.cancelUrl) return`
  abbrev pub cancel_found : String → Option TaskSelect → App World Unit
  cancel_found task_id none w = (ok tt, w)
  cancel_found task_id (some task) w = notify task_id task (truthy task.cancel_url) w

  -- A read of the task that fails throws.
  unfoldable pub process_cancel : Outcome → String → App World Unit
  process_cancel find task_id = perform find (read_task task_id) >>= cancel_found task_id

-- ===== src/Delivery/Webhook.antt =====
-- src/modules/delivery/workers/webhook.processor.ts: the consumer of the `webhook` queue.
pub mod Delivered
use async_long_request_proxy.Prelude.{ℕ, String, Bool, Option, none, some, truthy, if◌then◌else◌}
use async_long_request_proxy.Result.{Error, Result, ok, err, App, ◌>>=◌, Outcome, perform}
use async_long_request_proxy.Tasks.Schema.{Json, TaskSelect}
use async_long_request_proxy.HttpRetry.{HttpRetryOptions, Reply, start, post}
use async_long_request_proxy.HttpRetry.Attempts.{is_http_error}
use async_long_request_proxy.World.{read_task, World, Request, webhook_request, send}

abbrev pub webhook_options : HttpRetryOptions
webhook_options = record { attempts = 5; base_delay_ms = 1000; max_delay_ms = 60000 }

-- The body: the status, and the result and the error that the row has.
abbrev pub webhook_body : String → TaskSelect → Request
webhook_body url task = webhook_request url task.id task.status task.result task.error

-- NonRetryableError and DispatchFailedError are logged, another error is thrown again.
abbrev pub after_post : Result Json → App World Unit
after_post (ok answer) w = (ok tt, w)
after_post (err e) w = if is_http_error e then (ok tt, w) else (err e, w)

module _ (reply : ℕ → Reply) (jitter : ℕ → ℕ) where
  abbrev pub deliver_to : TaskSelect → Option String → App World Unit
  deliver_to task none w = (ok tt, w)
  deliver_to task (some url) w =
      let posted = post webhook_options reply jitter start in
      after_post posted.0 (send (webhook_body url task) posted w)

  abbrev pub webhook_found : Option TaskSelect → App World Unit
  webhook_found none w = (ok tt, w)
  webhook_found (some task) w = deliver_to task (truthy task.webhook_url) w

  -- The task is read again: what is delivered is the row, not the job.
  unfoldable pub process_webhook : Outcome → String → App World Unit
  process_webhook find task_id = perform find (read_task task_id) >>= webhook_found

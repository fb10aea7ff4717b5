-- ===== src/Executor/Cancel/Notified.antt =====
-- What a cancel job does, whatever the executor answers.
use mathlib.Core.List.{append-nil}
use async_long_request_proxy.Prelude.{
  ℕ, String, ◌≡◌, refl, sym, ap, ◌∙◌, Option, none, some, List, [], ◌++◌, truthy,
}
use async_long_request_proxy.Result.{non_retryable, Result, ok, err, replied}
use async_long_request_proxy.Tasks.Schema.{Json, TaskSelect}
use async_long_request_proxy.Tasks.Repository.{find_by_id}
use async_long_request_proxy.HttpRetry.{Reply, start, post}
use async_long_request_proxy.HttpRetry.Attempts.{requests_due, post_lem}
use async_long_request_proxy.World.{World, Request, cancel_request, repeated, send}
use async_long_request_proxy.Executor.Dispatch.{token_or_empty}
use async_long_request_proxy.Executor.Cancel.{
  cancel_options, swallow, notify, cancel_found, process_cancel,
}

pub swallow_lem : (r : Result Json) (w : World) → swallow r w ≡ (ok tt, w)
swallow_lem (ok answer) w = refl
swallow_lem (err (non_retryable status)) w = refl
swallow_lem (err e) w = refl

module _ (reply : ℕ → Reply) (jitter : ℕ → ℕ) (task_id : String) where
  -- The requests that are due for a row: if it exists and has a cancel URL, one for each attempt up
  -- to the first reply that is not transient, at most two.
  abbrev pub notice_to : TaskSelect → Option String → List Request
  notice_to task none = []
  notice_to task (some url) =
      repeated (requests_due cancel_options reply jitter)
        (cancel_request url task_id (token_or_empty task.callback_token))

  abbrev pub notice : Option TaskSelect → List Request
  notice none = []
  notice (some task) = notice_to task (truthy task.cancel_url)

  notified :
      (task : TaskSelect) (url : Option String) (w : World)
      → notify reply jitter task_id task url w
        ≡ (ok tt, record w { sent = w.sent ++ notice_to task url })
  notified task none w = ap (λ rs. (ok tt, record w { sent = rs })) (sym (append-nil w.sent))
  notified task (some url) w =
      let posted = post cancel_options reply jitter start in
      let request = cancel_request url task_id (token_or_empty task.callback_token) in
      swallow_lem posted.0 (send request posted w)
      ∙ ap (λ n. (ok tt, record w { sent = w.sent ++ repeated n request }))
          (post_lem cancel_options reply jitter).1

  found :
      (task : Option TaskSelect) (w : World)
      → cancel_found reply jitter task_id task w
        ≡ (ok tt, record w { sent = w.sent ++ notice task })
  found none w = ap (λ rs. (ok tt, record w { sent = rs })) (sym (append-nil w.sent))
  found (some task) w = notified task (truthy task.cancel_url) w

  -- A cancel job whose read is answered.
  pub process_cancel_lem :
      (w : World)
      → process_cancel reply jitter replied task_id w
        ≡ (ok tt, record w { sent = w.sent ++ notice (find_by_id task_id w.db) })
  unfolding process_cancel
  process_cancel_lem w = found (find_by_id task_id w.db) w

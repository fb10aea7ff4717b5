-- ===== src/Delivery/Webhook/Delivered.antt =====
-- What a webhook job does, whatever the client's server answers and whether its read is answered.
use mathlib.Core.List.{append-nil}
use async_long_request_proxy.Prelude.{
  ◌<◌, ◌≤◌, arith, ℕ, String, ◌≡◌, refl, sym, ap, ◌∙◌, Option, none, some, List, [], ◌++◌, truthy,
}
use async_long_request_proxy.Result.{
  connection_lost, Result, ok, err, Outcome, replied, refused, reply_lost,
}
use async_long_request_proxy.Tasks.Schema.{Json, TaskSelect}
use async_long_request_proxy.Tasks.Repository.{find_by_id}
use async_long_request_proxy.HttpRetry.{Reply, start, post}
use async_long_request_proxy.HttpRetry.Attempts.{
  IsHttpResult, requests_due, requests_due-bounds, post_lem, post_error,
}
use async_long_request_proxy.World.{World, Request, webhook_request, repeated, send}
use async_long_request_proxy.Delivery.Webhook.{
  webhook_options, webhook_body, after_post, deliver_to, webhook_found, process_webhook,
}

-- What a job ends with whose only call that may throw is its read.
abbrev pub after_read : Outcome → Result (Unit {0})
after_read replied = ok tt
after_read refused = err connection_lost
after_read reply_lost = err connection_lost

after_post_lem : (r : Result Json) (w : World) → IsHttpResult r → after_post r w ≡ (ok tt, w)
after_post_lem (ok answer) w h = refl
after_post_lem (err e) w h = rw h refl

module _ (reply : ℕ → Reply) (jitter : ℕ → ℕ) where
  -- The requests that are due for a row: if it exists and has a webhook URL, one for each attempt
  -- up to the first reply that is not transient, at most five.
  abbrev pub due_url : TaskSelect → Option String → List Request
  due_url task none = []
  due_url task (some url) =
      repeated (requests_due webhook_options reply jitter)
        (webhook_request url task.id task.status task.result task.error)

  abbrev pub due : Option TaskSelect → List Request
  due none = []
  due (some task) = due_url task (truthy task.webhook_url)

  abbrev pub due_after : Outcome → Option TaskSelect → List Request
  due_after replied task = due task
  due_after refused task = []
  due_after reply_lost task = []

  delivered :
      (task : TaskSelect) (url : Option String) (w : World)
      → deliver_to reply jitter task url w ≡ (ok tt, record w { sent = w.sent ++ due_url task url })
  delivered task none w = ap (λ rs. (ok tt, record w { sent = rs })) (sym (append-nil w.sent))
  delivered task (some url) w =
      let posted = post webhook_options reply jitter start in
      after_post_lem posted.0 (send (webhook_body url task) posted w)
        (post_error webhook_options reply jitter)
      ∙ ap (λ n. (ok tt, record w { sent = w.sent ++ repeated n (webhook_body url task) }))
          (post_lem webhook_options reply jitter).1

  found :
      (task : Option TaskSelect) (w : World)
      → webhook_found reply jitter task w ≡ (ok tt, record w { sent = w.sent ++ due task })
  found none w = ap (λ rs. (ok tt, record w { sent = rs })) (sym (append-nil w.sent))
  found (some task) w = delivered task (truthy task.webhook_url) w

  -- A webhook job whose read of the task is answered succeeds, whatever the client's server
  -- answers, so that the queue does not run it again; if the row exists and has a webhook URL, it
  -- posts the row's status, result and error to that URL, once for each attempt up to the first
  -- reply that is not transient, at least once and at most five times, and else nothing. A job
  -- whose read fails throws and posts nothing. Nothing but the posted requests changes.
  pub process_webhook_lem :
      (find : Outcome) (task_id : String) (w : World)
      → let n = requests_due webhook_options reply jitter in
        (process_webhook reply jitter find task_id w ≡ (
          after_read find,
          record w { sent = w.sent ++ due_after find (find_by_id task_id w.db) },
        ))
        × (0 < n)
        × (n ≤ 5)
  unfolding process_webhook
  process_webhook_lem find task_id w =
      let bounds = requests_due-bounds webhook_options reply jitter (omega arith) in
      (run find, bounds.0, bounds.1)
    where
      run :
          (o : Outcome)
          → process_webhook reply jitter o task_id w
            ≡ (after_read o, record w { sent = w.sent ++ due_after o (find_by_id task_id w.db) })
      run replied = found (find_by_id task_id w.db) w
      run refused =
          ap (λ rs. (err connection_lost, record w { sent = rs })) (sym (append-nil w.sent))
      run reply_lost =
          ap (λ rs. (err connection_lost, record w { sent = rs })) (sym (append-nil w.sent))

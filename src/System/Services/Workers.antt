-- ===== src/System/Services/Workers.antt =====
-- The jobs of the dispatch, cancel and webhook workers.
use mathlib.Core.Path.{subst}
use async_long_request_proxy.Prelude.{ℕ, String, Option, none, some, [], ◌∷◌, truthy, if_rule, sym}
use async_long_request_proxy.Result.{
  Result, ok, err, App, pure, raise, ◌>>=◌, quietly, Outcome, perform,
}
use async_long_request_proxy.Result.Preserves.{Preserves, bind_rule, perform_rule, quietly_rule}
use async_long_request_proxy.Tasks.Schema.{Json, TaskStatus, pending, processing, TaskSelect}
use async_long_request_proxy.Tasks.Repository.{update_status}
use async_long_request_proxy.Delivery.Schema.{Db}
use async_long_request_proxy.Delivery.Webhook.{
  after_post, deliver_to, webhook_found, process_webhook, webhook_options, webhook_body,
}
use async_long_request_proxy.HttpRetry.{default_options, Reply, start, post}
use async_long_request_proxy.HttpRetry.Attempts.{is_http_error}
use async_long_request_proxy.World.{World, cancel_request, on_db, read_task, send}
use async_long_request_proxy.Executor.Dispatch.{
  token_or_empty, Run, claim_patch, failure_patch, revert_patch, conclude, deliver, process,
}
use async_long_request_proxy.Executor.Cancel.Notified.{swallow_lem}
use async_long_request_proxy.Executor.Cancel.{
  swallow, cancel_options, notify, cancel_found, process_cancel,
}
use async_long_request_proxy.System.Statement.{from_pending, from_processing, Statement}
use async_long_request_proxy.System.Services.{Reached, IsOpen, set_row_rule}

module _ (Allowed : Statement → Type 0) (open_to : IsOpen Allowed) (from : Db) where
  abbrev R : World → Type 0
  R = Reached Allowed from

  module _ (r : Run) (id : String) where
    conclude-Reached : (res : Result Json) → Preserves R (conclude r id res)
    unfolding conclude
    conclude-Reached (ok answer) w h = h
    conclude-Reached (err e) w h =
        let settle = perform r.settle (
          on_db
            (update_status id (processing ∷ []) TaskStatus.failed (failure_patch r e) r.later)) in
        let revert =
          perform r.revert
            (on_db (update_status id (processing ∷ []) pending revert_patch r.later)) in
        if_rule {A = App World (Unit {0})} (λ m. R (m w).1) (is_http_error e)
          (settle >>= (λ _. pure tt)) (quietly revert >>= (λ _. raise e))
          (λ _.
            bind_rule R settle (λ _. pure tt)
              (set_row_rule Allowed open_to from r.settle id from_processing TaskStatus.failed
                (failure_patch r e) r.later)
              (λ _ w h. h) w h)
          (λ _.
            bind_rule R (quietly revert) (λ _. raise {A = Unit {0}} e)
              (quietly_rule R revert (
                set_row_rule Allowed open_to from r.revert id from_processing pending revert_patch
                  r.later))
              (λ _ w h. h) w h)

    deliver-Reached : (task : Option TaskSelect) → Preserves R (deliver r id task)
    unfolding deliver
    deliver-Reached none w h = h
    deliver-Reached (some task) w h =
        let posted = post (record default_options { attempts = 3 }) r.reply r.jitter start in
        conclude-Reached posted.0 (send _ posted w) h

    pub process-Reached : (timeout_seconds : ℕ) → Preserves R (process r id timeout_seconds)
    unfolding process
    process-Reached timeout_seconds =
        let patch = claim_patch r.now timeout_seconds in
        bind_rule R
          (perform r.claim (on_db (update_status id (pending ∷ []) processing patch r.now)))
          (deliver r id)
          (set_row_rule Allowed open_to from r.claim id from_pending processing patch r.now)
          deliver-Reached

  module _ (reply : ℕ → Reply) (jitter : ℕ → ℕ) where
    after_post-Reached : (r : Result Json) → Preserves R (after_post r)
    after_post-Reached (ok answer) w h = h
    after_post-Reached (err e) w h =
        if_rule {A = Result (Unit {0}) × World} (λ x. R x.1) (is_http_error e) _ _ (λ _. h) (λ _. h)

    webhook_found-Reached :
        (task : Option TaskSelect) → Preserves R (webhook_found reply jitter task)
    webhook_found-Reached none w h = h
    webhook_found-Reached (some task) w h = to_url (truthy task.webhook_url)
      where
        to_url : (url : Option String) → R (deliver_to reply jitter task url w).1
        to_url none = h
        to_url (some url) =
            let posted = post webhook_options reply jitter start in
            after_post-Reached posted.0 (send (webhook_body url task) posted w) h

    pub process_webhook-Reached :
        (find : Outcome) (id : String) → Preserves R (process_webhook reply jitter find id)
    unfolding process_webhook
    process_webhook-Reached find id =
        bind_rule R (perform find (read_task id)) (webhook_found reply jitter)
          (perform_rule R find (read_task id) (λ w h. h)) webhook_found-Reached

    swallow-Reached : (r : Result Json) → Preserves R (swallow r)
    swallow-Reached r w h =
        subst (λ (x : Result (Unit {0}) × World). R x.1) (sym (swallow_lem r w)) h

    cancel_found-Reached :
        (id : String) (task : Option TaskSelect) → Preserves R (cancel_found reply jitter id task)
    cancel_found-Reached id none w h = h
    cancel_found-Reached id (some task) w h = to_url (truthy task.cancel_url)
      where
        to_url : (url : Option String) → R (notify reply jitter id task url w).1
        to_url none = h
        to_url (some url) =
            let posted = post cancel_options reply jitter start in
            swallow-Reached posted.0
              (send (cancel_request url id (token_or_empty task.callback_token)) posted w) h

    pub process_cancel-Reached :
        (find : Outcome) (id : String) → Preserves R (process_cancel reply jitter find id)
    unfolding process_cancel
    process_cancel-Reached find id =
        bind_rule R (perform find (read_task id)) (cancel_found reply jitter id)
          (perform_rule R find (read_task id) (λ w h. h)) (cancel_found-Reached id)

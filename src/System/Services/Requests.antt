-- ===== src/System/Services/Requests.antt =====
-- The calls of clients and executors on a task that exists.
use async_long_request_proxy.Prelude.{ℕ, String, Option, none, some, List, [], ◌∷◌, truthy}
use async_long_request_proxy.Result.{Result, ok, err, App, continue, perform}
use async_long_request_proxy.Result.Preserves.{Preserves, bind_rule, perform_rule}
use async_long_request_proxy.Tasks.Schema.{processing, TaskSelect}
use async_long_request_proxy.Tasks.Repository.{update_status, update_progress, cancel_task}
use async_long_request_proxy.Delivery.Schema.{TaskEventPayload, TaskEventSelect, Db}
use async_long_request_proxy.Delivery.Events.{insert_event}
use async_long_request_proxy.Queue.{webhook, cancel, no_options}
use async_long_request_proxy.World.{World, on_db, publish, read_task}
use async_long_request_proxy.Executor.Service.{
  SubmitResultDto, UpdateProgressDto, Calls, final_status, final_patch, final_payload,
  enqueue_webhook, record_event, announce, submit_result, update_progress_of,
}
use async_long_request_proxy.Executor.Guard.{
  CallbackRequest, can_activate, post_result, patch_progress,
}
use async_long_request_proxy.Executor.Guard.Access.{can_activate-unchanged}
use async_long_request_proxy.Tasks.Service.{
  Cancelling, enqueue_cancel, refusal, announce_cancelled, cancel_by_user,
}
use async_long_request_proxy.System.Statement.{from_processing, Statement}
use async_long_request_proxy.System.Services.{
  Reached, IsOpen, set_row_rule, set_progress_rule, add_event_rule, cancel_row_rule, publish_rule,
  enqueue_rule,
}

module _ (Allowed : Statement → Type 0) (open_to : IsOpen Allowed) (from : Db) where
  abbrev R : World → Type 0
  R = Reached Allowed from

  module _ (c : Calls) (task : TaskSelect) where
    record_event-Reached : (payload : TaskEventPayload) → Preserves R (record_event c task payload)
    unfolding record_event
    record_event-Reached payload =
        bind_rule R (perform c.insert (on_db (insert_event c.event_id c.now task.id payload)))
          (λ e. perform c.publish (publish task.id e))
          (add_event_rule Allowed open_to from c.insert c.event_id c.now task.id payload)
          (λ e. publish_rule Allowed open_to from c.publish task.id e)

    enqueue_webhook-Reached :
        (url : Option String) → Preserves R (enqueue_webhook c.enqueue task.id url)
    enqueue_webhook-Reached none = λ w h. h
    enqueue_webhook-Reached (some url) =
        enqueue_rule Allowed open_to from c.enqueue (webhook task.id) no_options

    announce-Reached :
        (dto : SubmitResultDto) (updated : Option TaskSelect)
        → Preserves R (announce c task dto updated)
    unfolding announce
    announce-Reached dto none = λ w h. h
    announce-Reached dto (some t) =
        bind_rule R (record_event c task (final_payload dto))
          (λ _. enqueue_webhook c.enqueue task.id (truthy task.webhook_url))
          (record_event-Reached (final_payload dto))
          (λ _. enqueue_webhook-Reached (truthy task.webhook_url))

    submit_result-Reached : (dto : SubmitResultDto) → Preserves R (submit_result c task dto)
    unfolding submit_result
    submit_result-Reached dto =
        bind_rule R
          (perform c.update (
            on_db (
              update_status task.id (processing ∷ []) (final_status dto) (final_patch dto c.now)
                c.now)))
          (announce c task dto)
          (set_row_rule Allowed open_to from c.update task.id from_processing (final_status dto)
            (final_patch dto c.now) c.now)
          (announce-Reached dto)

    update_progress_of-Reached :
        (dto : UpdateProgressDto) → Preserves R (update_progress_of c task dto)
    unfolding update_progress_of
    update_progress_of-Reached dto =
        bind_rule R (perform c.update (on_db (update_progress task.id dto.progress c.now)))
          (λ _. record_event c task (TaskEventPayload.progress dto.progress))
          (set_progress_rule Allowed open_to from c.update task.id dto.progress c.now)
          (λ _. record_event-Reached (TaskEventPayload.progress dto.progress))

  continued-Reached :
      (r : Result TaskSelect) (f : TaskSelect → App World Unit)
      → ((t : TaskSelect) → Preserves R (f t))
      → Preserves R (continue r f)
  continued-Reached (ok t) f k = k t
  continued-Reached (err e) f k = λ w h. h

  module _ (bytes : String → List ℕ) (c : Calls) (req : CallbackRequest) where
    pub post_result-Reached : (dto : SubmitResultDto) → Preserves R (post_result bytes c req dto)
    unfolding post_result
    post_result-Reached dto w h = rw (can_activate-unchanged bytes req w) (
        continued-Reached (can_activate bytes req w).0 (λ task. submit_result c task dto)
          (λ task. submit_result-Reached c task dto) w h)

    pub patch_progress-Reached :
        (dto : UpdateProgressDto) → Preserves R (patch_progress bytes c req dto)
    unfolding patch_progress
    patch_progress-Reached dto w h = rw (can_activate-unchanged bytes req w) (
        continued-Reached (can_activate bytes req w).0 (λ task. update_progress_of c task dto)
          (λ task. update_progress_of-Reached c task dto) w h)

  module _ (c : Cancelling) (id : String) where
    enqueue_cancel-Reached : (url : Option String) → Preserves R (enqueue_cancel c.enqueue id url)
    enqueue_cancel-Reached none = λ w h. h
    enqueue_cancel-Reached (some url) =
        enqueue_rule Allowed open_to from c.enqueue (cancel id) no_options

    refusal-Reached : (t : Option TaskSelect) → Preserves R (refusal t)
    refusal-Reached none w h = h
    refusal-Reached (some t) w h = h

    announce_cancelled-Reached :
        (found : Option (TaskSelect × TaskEventSelect))
        → Preserves R (announce_cancelled c id found)
    announce_cancelled-Reached none =
        bind_rule R (perform c.find (read_task id)) refusal
          (perform_rule R c.find (read_task id) (λ w h. h)) refusal-Reached
    announce_cancelled-Reached (some (task, event)) =
        bind_rule R (perform c.publish (publish id event))
          (λ _. enqueue_cancel c.enqueue id (truthy task.cancel_url))
          (publish_rule Allowed open_to from c.publish id event)
          (λ _. enqueue_cancel-Reached (truthy task.cancel_url))

    pub cancel_by_user-Reached : Preserves R (cancel_by_user c id)
    unfolding cancel_by_user
    cancel_by_user-Reached =
        bind_rule R (perform c.update (on_db (cancel_task c.event_id c.now id)))
          (announce_cancelled c id)
          (cancel_row_rule Allowed open_to from c.update c.event_id c.now id)
          announce_cancelled-Reached

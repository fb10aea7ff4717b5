-- ===== src/Executor/Service.antt =====
-- src/modules/executor/executor.service.ts: what the executor's callbacks do.
pub mod Submission
use async_long_request_proxy.Prelude.{ℕ, String, Option, none, some, List, [], ◌∷◌, truthy}
use async_long_request_proxy.Result.{App, pure, ◌>>=◌, ◌>>◌, Outcome, perform}
use async_long_request_proxy.Tasks.Schema.{
  Json, Time, TaskStatus, processing, TaskError, TaskSelect,
}
use async_long_request_proxy.Tasks.Repository.{TaskPatch, no_change, update_status, update_progress}
use async_long_request_proxy.Delivery.Schema.{TaskEventPayload, TaskEventSelect}
use async_long_request_proxy.Delivery.Events.{insert_event}
use async_long_request_proxy.Queue.{QueueJob, webhook, no_options, enqueue}
use async_long_request_proxy.World.{World, on_db, on_jobs, publish}

-- executor.dto.ts
pub data SubmitResultDto : Type 0 where
  completed : Json → SubmitResultDto
  failed : TaskError → SubmitResultDto

pub record UpdateProgressDto : Type 0 where
  pub progress : ℕ

-- The clock, the id of the new event, and the fate of the calls in their order.
pub record Calls : Type 0 where
  pub now : Time
  pub event_id : String
  pub update : Outcome
  pub insert : Outcome
  pub publish : Outcome
  pub enqueue : Outcome

abbrev pub final_status : SubmitResultDto → TaskStatus
final_status (completed result) = TaskStatus.completed
final_status (failed error) = TaskStatus.failed

abbrev pub final_patch : SubmitResultDto → Time → TaskPatch
final_patch (completed result) now = record no_change {
  result = some (some result);
  completed_at = some (some now);
}
final_patch (failed error) now = record no_change {
  error = some (some error);
  completed_at = some (some now);
}

abbrev pub final_payload : SubmitResultDto → TaskEventPayload
final_payload (completed result) = TaskEventPayload.completed result
final_payload (failed error) = TaskEventPayload.failed error

-- `if (task.webhookUrl)`
abbrev pub enqueue_webhook : Outcome → String → Option String → App World Unit
enqueue_webhook o task_id none = pure tt
enqueue_webhook o task_id (some url) = perform o (on_jobs (enqueue (webhook task_id) no_options))

module _ (c : Calls) (task : TaskSelect) where
  unfoldable pub record_event : TaskEventPayload → App World Unit
  record_event payload = do
    event ← perform c.insert (on_db (insert_event c.event_id c.now task.id payload))
    perform c.publish (publish task.id event)

  unfoldable pub announce : SubmitResultDto → Option TaskSelect → App World Unit
  announce dto none = pure tt
  announce dto (some updated) = do
    record_event (final_payload dto)
    enqueue_webhook c.enqueue task.id (truthy task.webhook_url)

  -- Both branches of `submitResult`, which differ in the status, the columns and the event.
  unfoldable pub submit_result : SubmitResultDto → App World Unit
  submit_result dto = do
    updated ← perform c.update (
        on_db (
          update_status task.id (processing ∷ []) (final_status dto) (final_patch dto c.now) c.now))
    announce dto updated

  unfoldable pub update_progress_of : UpdateProgressDto → App World Unit
  update_progress_of dto = do
    perform c.update (on_db (update_progress task.id dto.progress c.now))
    record_event (TaskEventPayload.progress dto.progress)

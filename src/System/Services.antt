-- ===== src/System/Services.antt =====
-- Each call of a service and each job of a worker runs a sequence of statements on the database.
-- Here are the rules for one statement; the child modules go through the calls.
pub mod Workers
pub mod Requests
pub mod Maintaining
pub mod Creation
use async_long_request_proxy.Prelude.{ℕ, String, ◌≡◌, refl, Bool, false, List, [], ◌∷◌}
use async_long_request_proxy.Result.{App, Outcome, perform}
use async_long_request_proxy.Result.Preserves.{Preserves, perform_rule}
use async_long_request_proxy.Tasks.Schema.{Time, TaskStatus}
use async_long_request_proxy.Tasks.Repository.{
  TaskPatch, update_status, update_progress, cancel_task,
}
use async_long_request_proxy.Delivery.Schema.{TaskEventPayload, TaskEventSelect, Db}
use async_long_request_proxy.Delivery.Events.{insert_event}
use async_long_request_proxy.Queue.{QueueJob, JobOptions, enqueue}
use async_long_request_proxy.World.{World, on_db, on_jobs, publish}
use async_long_request_proxy.System.Statement.{
  Source, statuses, Statement, set_row, set_progress, add_event, cancel_row, exec, Reaches, after,
  adds_or_deletes,
}

-- The database has come from `from` by allowed statements.
abbrev pub Reached : (Statement → Type 0) → Db → World → Type 0
Reached Allowed from w = Reaches Allowed from w.db

-- All statements but the INSERT and the DELETEs of tasks are allowed.
abbrev pub IsOpen : (Statement → Type 0) → Type 0
IsOpen Allowed = (s : Statement) → adds_or_deletes s ≡ false → Allowed s

module _ (Allowed : Statement → Type 0) (open_to : IsOpen Allowed) (from : Db) (o : Outcome) where
  pub set_row_rule :
      (id : String) (source : Source) (to : TaskStatus) (extra : TaskPatch) (now : Time)
      → Preserves
          (Reached Allowed from)
          (perform o (on_db (update_status id (statuses source) to extra now)))
  unfolding exec
  set_row_rule id source to extra now =
      perform_rule (Reached Allowed from) o
        (on_db (update_status id (statuses source) to extra now))
        (λ w h. let s = set_row id source to extra now in after s (open_to s refl) h)

  pub set_progress_rule :
      (id : String) (progress : ℕ) (now : Time)
      → Preserves (Reached Allowed from) (perform o (on_db (update_progress id progress now)))
  unfolding exec
  set_progress_rule id progress now =
      perform_rule (Reached Allowed from) o (on_db (update_progress id progress now))
        (λ w h. let s = set_progress id progress now in after s (open_to s refl) h)

  pub add_event_rule :
      (event_id : String) (now : Time) (id : String) (payload : TaskEventPayload)
      → Preserves (Reached Allowed from) (perform o (on_db (insert_event event_id now id payload)))
  unfolding exec
  add_event_rule event_id now id payload =
      perform_rule (Reached Allowed from) o (on_db (insert_event event_id now id payload))
        (λ w h. let s = add_event event_id now id payload in after s (open_to s refl) h)

  pub cancel_row_rule :
      (event_id : String) (now : Time) (id : String)
      → Preserves (Reached Allowed from) (perform o (on_db (cancel_task event_id now id)))
  unfolding exec
  cancel_row_rule event_id now id =
      perform_rule (Reached Allowed from) o (on_db (cancel_task event_id now id))
        (λ w h. let s = cancel_row event_id now id in after s (open_to s refl) h)

  pub publish_rule :
      (id : String) (event : TaskEventSelect)
      → Preserves (Reached Allowed from) (perform o (publish id event))
  publish_rule id event = perform_rule (Reached Allowed from) o (publish id event) (λ w h. h)

  pub enqueue_rule :
      (job : QueueJob) (options : JobOptions)
      → Preserves (Reached Allowed from) (perform o (on_jobs (enqueue job options)))
  enqueue_rule job options =
      perform_rule (Reached Allowed from) o (on_jobs (enqueue job options)) (λ w h. h)

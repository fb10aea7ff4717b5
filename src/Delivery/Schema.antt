-- ===== src/Delivery/Schema.antt =====
-- src/modules/delivery/schemas/events.sql.ts and dto/events.types.ts: the rows of `task_events`,
-- and the state of the database, which is its two tables.
use async_long_request_proxy.Prelude.{ℕ, String, List}
use async_long_request_proxy.Tasks.Schema.{Json, Time, TaskError, TaskSelect}

pub data TaskEventType : Type 0 where
  progress completed failed cancelled : TaskEventType

-- The event type with the fields of its variant.
pub data TaskEventPayload : Type 0 where
  progress : ℕ → TaskEventPayload
  completed : Json → TaskEventPayload
  failed : TaskError → TaskEventPayload
  cancelled : TaskEventPayload

abbrev pub event_type : TaskEventPayload → TaskEventType
event_type (progress n) = progress
event_type (completed r) = completed
event_type (failed e) = failed
event_type cancelled = cancelled

pub record TaskEventSelect : Type 0 where
  pub id : String
  pub task_id : String
  pub seq : ℕ
  pub payload : TaskEventPayload
  pub created_at : Time

pub record Db : Type 0 where
  pub tasks : List TaskSelect
  pub events : List TaskEventSelect

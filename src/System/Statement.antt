-- ===== src/System/Statement.antt =====
-- The statements and transactions that the repositories run, one step of the database each. As the
-- awaits of different calls interleave, any sequence of them may happen.
pub mod Sound
pub mod Ended
use async_long_request_proxy.Prelude.{ℕ, String, ◌≡◌, ◌==◌, ltb, Bool, true, false, List, [], ◌∷◌}
use async_long_request_proxy.Tasks.Schema.{Time, TaskStatus, pending, processing, TaskInsert}
use async_long_request_proxy.Tasks.Repository.{
  TaskPatch, insert, delete_by_id, update_status, update_progress, cancel_task,
}
use async_long_request_proxy.Delivery.Schema.{TaskEventPayload, Db}
use async_long_request_proxy.Delivery.Events.{insert_event}
use async_long_request_proxy.Maintenance.Repository.{
  expire_timed_out_tasks_batch, old_rows, ids_of, delete_batch,
}

-- The status that `updateStatus` demands, in the calls of the code.
pub data Source : Type 0 where
  from_pending from_processing : Source

abbrev pub statuses : Source → List TaskStatus
statuses from_pending = pending ∷ []
statuses from_processing = processing ∷ []

pub data Statement : Type 0 where
  insert_row : String → Time → TaskInsert → Statement
  delete_row : String → Statement
  set_row : String → Source → TaskStatus → TaskPatch → Time → Statement
  set_progress : String → ℕ → Time → Statement
  add_event : String → Time → String → TaskEventPayload → Statement
  cancel_row : String → Time → String → Statement
  expire_rows : (String → Bool) → (ℕ → String) → Time → ℕ → Statement
  delete_old_rows : Time → Statement

unfoldable pub exec : Statement → Db → Db
exec (insert_row id now values) db = (insert id now values db).1
exec (delete_row id) db = (delete_by_id id db).1
exec (set_row id source to extra now) db = (update_status id (statuses source) to extra now db).1
exec (set_progress id progress now) db = (update_progress id progress now db).1
exec (add_event event_id now id payload) db = (insert_event event_id now id payload db).1
exec (cancel_row event_id now id) db = (cancel_task event_id now id db).1
exec (expire_rows locked fresh now batch) db =
    (expire_timed_out_tasks_batch locked fresh now batch db).1
exec (delete_old_rows cutoff) db = delete_batch (ids_of (old_rows cutoff db.tasks)) db

-- What the database may become by statements that are allowed.
pub data Reaches (Allowed : Statement → Type 0) (db : Db) : Db → Type 0 where
  start : Reaches Allowed db db
  after :
      (s : Statement) {db' : Db}
      → Allowed s
      → Reaches Allowed db db'
      → Reaches Allowed db (exec s db')

-- A new row is another task's.
abbrev pub Spares : String → Statement → Type 0
Spares id (insert_row i now values) = (i == id) ≡ false
Spares id _ = Unit

-- Nor is a deleted row, or an old one, the task's that was created then.
abbrev pub Keeps : String → Time → Statement → Type 0
Keeps id created (insert_row i now values) = (i == id) ≡ false
Keeps id created (delete_row i) = (i == id) ≡ false
Keeps id created (delete_old_rows cutoff) = ltb created cutoff ≡ false
Keeps id created _ = Unit

-- The INSERT and the DELETEs of tasks.
abbrev pub adds_or_deletes : Statement → Bool
adds_or_deletes (insert_row id now values) = true
adds_or_deletes (delete_row id) = true
adds_or_deletes (delete_old_rows cutoff) = true
adds_or_deletes _ = false

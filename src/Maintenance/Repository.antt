-- ===== src/Maintenance/Repository.antt =====
-- src/modules/maintenance/maintenance.repository.ts. A statement sees the rows in the order of the
-- table; which rows another transaction holds locked is an argument, as are the clock and the ids.
pub mod Retention
pub mod Purged
pub mod Retained
pub mod Timeouts
pub mod Expired
pub mod Limited
pub mod TimedOut
use async_long_request_proxy.Prelude.{
  ℕ, zero, suc, ◌+◌, ◌-◌, ◌*◌, String, Bool, true, false, not, ◌&&◌, Option, none, some, List, [],
  ◌∷◌, ◌++◌, map, ◌==◌, any, take, length, ltb, leb, if◌then◌else◌,
}
use async_long_request_proxy.Result.{
  Result, ok, err, unique_violation, App, pure, ◌>>=◌, transaction,
}
use async_long_request_proxy.Table.{select, delete}
use async_long_request_proxy.Tasks.Schema.{
  Time, TaskStatus, pending, processing, completed, failed, cancelled, status_in, TaskError,
  TaskSelect,
}
use async_long_request_proxy.Tasks.Repository.{TaskPatch, no_change, set_status, update_returning}
use async_long_request_proxy.Delivery.Schema.{TaskEventPayload, TaskEventSelect, Db}
use async_long_request_proxy.Delivery.Events.{max_seq, seq_taken, new_event}

pub record TimeoutSweeperResult : Type 0 where
  pub expired_count : ℕ
  pub events : List TaskEventSelect

pub record DataRetentionResult : Type 0 where
  pub deleted_events_count : ℕ
  pub deleted_tasks_count : ℕ

abbrev pub retention_delete_batch_size : ℕ
retention_delete_batch_size = 500

abbrev pub timeout_error : TaskError
timeout_error = record {
  code = "BUSINESS_TIMEOUT";
  message = "Task exceeded its configured timeout and was automatically failed.";
  details = none;
}

-- lt(tasks.expiresAt, now), which is not true of NULL
abbrev pub before : Option Time → Time → Bool
before none now = false
before (some t) now = ltb t now

abbrev pub is_expired : Time → TaskSelect → Bool
is_expired now t = status_in t.status (pending ∷ processing ∷ []) && before t.expires_at now

-- inArray(tasks.id, ids)
abbrev pub id_in : List String → String → Bool
id_in ids id = any (λ i. id == i) ids

abbrev pub ids_of : List TaskSelect → List String
ids_of = map (λ t. t.id)

-- SELECT ... LIMIT batch FOR UPDATE SKIP LOCKED
unfoldable pub expired_rows : (String → Bool) → Time → ℕ → List TaskSelect → List TaskSelect
expired_rows locked now batch ts =
    take batch (select (λ t. is_expired now t && not (locked t.id)) ts)

abbrev pub timeout_patch : Time → TaskPatch
timeout_patch now = record no_change {
  error = some (some timeout_error);
  completed_at = some (some now);
}

-- ROW_NUMBER() OVER (PARTITION BY task_id) for a row after the rows `seen`.
unfoldable pub row_number : String → List String → ℕ
row_number id [] = 1
row_number id (s ∷ seen) = let rest = row_number id seen in if s == id then suc rest else rest

-- The rows of the bulk INSERT: the maximum is that of the table before the statement.
unfoldable pub timeout_events :
    (ℕ → String) → Time → List TaskEventSelect → List String → List String → List TaskEventSelect
timeout_events fresh now es seen [] = []
timeout_events fresh now es seen (id ∷ ids) =
    new_event (fresh (length seen)) now id (TaskEventPayload.failed timeout_error)
      (max_seq id es + row_number id seen)
    ∷ timeout_events fresh now es (id ∷ seen) ids

-- INSERT of several rows, under the unique index on the task and the number.
unfoldable pub insert_rows : List TaskEventSelect → App Db Unit
insert_rows [] db = (ok tt, db)
insert_rows (e ∷ es) db =
    let rest = insert_rows es (record db { events = db.events ++ e ∷ [] }) in
    if seq_taken e.task_id e.seq db.events then (err unique_violation, db) else rest

unfoldable pub record_timeouts : (ℕ → String) → Time → List TaskSelect → App Db TimeoutSweeperResult
record_timeouts fresh now [] db = (ok (record { expired_count = 0; events = [] }), db)
record_timeouts fresh now (t ∷ ts) db =
    let events = timeout_events fresh now db.events [] (ids_of (t ∷ ts)) in
    (insert_rows events >>= λ _. pure (record { expired_count = length (t ∷ ts); events = events }))
      db

unfoldable pub expire_timed_out_tasks_batch :
    (String → Bool) → (ℕ → String) → Time → ℕ → App Db TimeoutSweeperResult
expire_timed_out_tasks_batch locked fresh now batch = transaction (λ db.
    let ids = ids_of (expired_rows locked now batch db.tasks) in
    (update_returning (λ t. id_in ids t.id) (set_status failed (timeout_patch now) now)
        >>= record_timeouts fresh now)
      db)

-- A terminal task from before `cutoff`.
abbrev pub is_old : Time → TaskSelect → Bool
is_old cutoff t =
    status_in t.status (completed ∷ failed ∷ cancelled ∷ []) && ltb t.created_at cutoff

abbrev pub old_rows : Time → List TaskSelect → List TaskSelect
old_rows cutoff ts = take retention_delete_batch_size (select (is_old cutoff) ts)

abbrev pub delete_batch : List String → Db → Db
delete_batch ids db = record db {
  tasks = delete (λ t. id_in ids t.id) db.tasks;
  events = delete (λ e. id_in ids e.task_id) db.events;
}

abbrev pub add_deleted : List String → Db → DataRetentionResult → DataRetentionResult
add_deleted ids db r = record {
  deleted_events_count =
      r.deleted_events_count + length (select (λ e. id_in ids e.task_id) db.events);
  deleted_tasks_count = r.deleted_tasks_count + length (select (λ t. id_in ids t.id) db.tasks);
}

-- The loop, with the totals so far; the first component says that it ended within its fuel.
unfoldable pub delete_loop : ℕ → Time → DataRetentionResult → Db → Bool × DataRetentionResult × Db
delete_loop zero cutoff total db = (false, total, db)
delete_loop (suc fuel) cutoff total db =
    let batch = old_rows cutoff db.tasks in
    let ids = ids_of batch in
    let total' = add_deleted ids db total in
    let db' = delete_batch ids db in
    let again = delete_loop fuel cutoff total' db' in
    if leb (length batch) 0
    then (true, total, db)
    else if leb retention_delete_batch_size (length batch)
    then again
    else (true, total', db')

-- A day is 24 hours of 3600000 milliseconds.
unfoldable pub delete_old_data : ℕ → Time → ℕ → Db → Bool × DataRetentionResult × Db
delete_old_data fuel now retention_days =
    delete_loop fuel (now - retention_days * 86400000)
      (record { deleted_events_count = 0; deleted_tasks_count = 0 })

-- ===== src/Tasks/Repository.antt =====
-- src/modules/tasks/tasks.repository.ts: the statements on the `tasks` table. An UPDATE or INSERT
-- that would break a CHECK constraint or a unique index is refused as a whole.
pub mod CompareAndSet
pub mod Integrity
use async_long_request_proxy.Prelude.{
  ℕ, String, Bool, ◌&&◌, ◌||◌, Option, none, some, List, [], ◌∷◌, ◌++◌, map, ◌==◌, any, all, first,
  if◌then◌else◌,
}
use async_long_request_proxy.Result.{
  Result, ok, err, check_violation, unique_violation, App, pure, ◌>>=◌, transaction,
}
use async_long_request_proxy.Table.{find, select, update, delete}
use async_long_request_proxy.Tasks.Schema.{
  Json, Time, TaskStatus, pending, processing, status_in, TaskError, TaskSelect, TaskInsert,
  tasks_valid_state_data, default_row, idempotency_key_taken,
}
use async_long_request_proxy.Delivery.Schema.{TaskEventPayload, TaskEventSelect, Db}
use async_long_request_proxy.Delivery.Events.{insert_event_in_tx}

abbrev pub has_id : String → TaskSelect → Bool
has_id id t = t.id == id

unfoldable pub insert : String → Time → TaskInsert → App Db TaskSelect
unfolding idempotency_key_taken
insert id now values db =
    let row = default_row id now values in
    if any (has_id id) db.tasks || idempotency_key_taken values.idempotency_key db.tasks
    then (err unique_violation, db)
    else if tasks_valid_state_data row
    then (ok row, record db { tasks = db.tasks ++ row ∷ [] })
    else (err check_violation, db)

unfoldable pub find_by_id : String → Db → Option TaskSelect
find_by_id id db = find (has_id id) db.tasks

unfoldable pub delete_by_id : String → App Db Unit
delete_by_id id db = (ok tt, record db { tasks = delete (has_id id) db.tasks })

-- UPDATE ... RETURNING
unfoldable pub update_returning :
    (TaskSelect → Bool) → (TaskSelect → TaskSelect) → App Db (List TaskSelect)
update_returning p f db =
    let changed = map f (select p db.tasks) in
    if all tasks_valid_state_data changed
    then (ok changed, record db { tasks = update p f db.tasks })
    else (err check_violation, db)

-- The argument `extra` of `updateStatus`: the columns that it names, with their new values.
pub record TaskPatch : Type 0 where
  pub result : Option (Option Json)
  pub error : Option (Option TaskError)
  pub processing_started_at : Option (Option Time)
  pub expires_at : Option (Option Time)
  pub completed_at : Option (Option Time)

abbrev pub no_change : TaskPatch
no_change = record {
  result = none;
  error = none;
  processing_started_at = none;
  expires_at = none;
  completed_at = none;
}

abbrev pub assign {ℓ} : {A : Type ℓ} → Option A → A → A
assign none old = old
assign (some new) old = new

-- SET status = to, ...extra; `updated_at` follows by `$onUpdate`.
abbrev pub set_status : TaskStatus → TaskPatch → Time → TaskSelect → TaskSelect
set_status to extra now t = record t {
  status = to;
  result = assign extra.result t.result;
  error = assign extra.error t.error;
  processing_started_at = assign extra.processing_started_at t.processing_started_at;
  expires_at = assign extra.expires_at t.expires_at;
  completed_at = assign extra.completed_at t.completed_at;
  updated_at = now;
}

unfoldable pub update_progress : String → ℕ → Time → App Db Unit
update_progress id progress now =
    update_returning (has_id id) (λ t. record t { progress = progress; updated_at = now }) >>= λ _.
    pure tt

unfoldable pub update_status :
    String → List TaskStatus → TaskStatus → TaskPatch → Time → App Db (Option TaskSelect)
update_status id from to extra now = do
  changed ← update_returning (λ t. t.id == id && status_in t.status from) (set_status to extra now)
  pure (first changed)

abbrev pub cancel_event :
    String → Time → String → Option TaskSelect → App Db (Option (TaskSelect × TaskEventSelect))
cancel_event event_id now id none = pure none
cancel_event event_id now id (some task) = do
  event ← insert_event_in_tx event_id now id TaskEventPayload.cancelled
  pure (some (task, event))

unfoldable pub cancel_task : String → Time → String → App Db (Option (TaskSelect × TaskEventSelect))
cancel_task event_id now id = transaction (do
  changed ←
      update_returning (λ t. t.id == id && status_in t.status (pending ∷ processing ∷ []))
        (set_status TaskStatus.cancelled (record no_change { completed_at = some (some now) }) now)
  cancel_event event_id now id (first changed))

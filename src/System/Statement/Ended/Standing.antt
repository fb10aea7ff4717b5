-- ===== src/System/Statement/Ended/Standing.antt =====
-- A task's row stands: no statement removes it but a DELETE of its id or of rows older than it.
use async_long_request_proxy.Prelude.{
  ℕ, String, ◌≡◌, refl, sym, ap, ◌∙◌, Option, none, some, Bool, true, false, ◌&&◌, ◌||◌, List, [],
  ◌∷◌, ◌++◌, map, ◌==◌, any, all, All, Bool-cases, inl, inr, &&-true, eq_iff, ltb, length, if_rule,
  first,
}
use async_long_request_proxy.Result.{Result, pure, ◌>>=◌}
use async_long_request_proxy.Result.Preserves.{Preserves, bind_rule, transaction_rule}
use async_long_request_proxy.Table.{select, delete}
use async_long_request_proxy.Table.Laws.{any-update, any-delete, any-append}
use async_long_request_proxy.Table.Keyed.{eq_sym}
use async_long_request_proxy.Tasks.Schema.{
  Time, TaskStatus, pending, processing, status_in, is_terminal, TaskSelect, TaskInsert,
  tasks_valid_state_data, default_row, idempotency_key_taken,
}
use async_long_request_proxy.Tasks.Repository.{
  no_change, has_id, TaskPatch, set_status, insert, delete_by_id, update_returning, update_status,
  update_progress, cancel_event, cancel_task,
}
use async_long_request_proxy.Delivery.Schema.{TaskEventPayload, TaskEventSelect, Db}
use async_long_request_proxy.Delivery.Events.{seq_taken, insert_event_in_tx, insert_event}
use async_long_request_proxy.Maintenance.Repository.{
  id_in, ids_of, timeout_patch, timeout_events, insert_rows, record_timeouts, expired_rows,
  expire_timed_out_tasks_batch, is_old, old_rows, retention_delete_batch_size,
}
use async_long_request_proxy.System.Statement.{
  statuses, Statement, insert_row, delete_row, set_row, set_progress, add_event, cancel_row,
  expire_rows, delete_old_rows, exec, Spares, Keeps, Reaches, start, after,
}
use async_long_request_proxy.System.Statement.Ended.{exec-IsEnded}
use async_long_request_proxy.System.Statement.Ended.Rows.{
  Ending, HasEnding, IsEnded, Other, ids_of-Other, terminal_closed,
}

module _ (id : String) where
  abbrev pub Stands : Db → Type 0
  Stands db = any (has_id id) db.tasks ≡ true

  -- An UPDATE that sets no id.
  update_returning-Stands :
      (p : TaskSelect → Bool) (f : TaskSelect → TaskSelect)
      → ((t : TaskSelect) → has_id id (f t) ≡ has_id id t)
      → Preserves Stands (update_returning p f)
  unfolding update_returning
  update_returning-Stands p f same db h =
      elim (Bool-cases (all tasks_valid_state_data (map f (select p db.tasks)))) [
        | inl v ↦ rw v (any-update (has_id id) p f same db.tasks ∙ h)
        | inr v ↦ rw v h
      ]

  insert_event_in_tx-Stands :
      (event_id : String) (now : Time) (t : String) (payload : TaskEventPayload)
      → Preserves Stands (insert_event_in_tx event_id now t payload)
  unfolding insert_event_in_tx
  insert_event_in_tx-Stands event_id now t payload db h =
      if_rule (λ (r : Result TaskEventSelect × Db). Stands r.1) (seq_taken t _ db.events) _ _
        (λ _. h) (λ _. h)

  insert_rows-Stands : (es : List TaskEventSelect) → Preserves Stands (insert_rows es)
  unfolding insert_rows
  insert_rows-Stands [] db h = h
  insert_rows-Stands (v ∷ vs) db h =
      if_rule (λ (r : Result (Unit {0}) × Db). Stands r.1) (seq_taken v.task_id v.seq db.events) _ _
        (λ _. h) (λ _. insert_rows-Stands vs (record db { events = db.events ++ v ∷ [] }) h)

  update_status-Stands :
      (i : String) (from : List TaskStatus) (to : TaskStatus) (extra : TaskPatch) (now : Time)
      → Preserves Stands (update_status i from to extra now)
  unfolding update_status
  update_status-Stands i from to extra now =
      bind_rule Stands
        (update_returning (λ t. t.id == i && status_in t.status from) (set_status to extra now))
        (λ ts. pure (first ts))
        (update_returning-Stands (λ t. t.id == i && status_in t.status from)
          (set_status to extra now) (λ t. refl))
        (λ _ s h. h)

  update_progress-Stands :
      (i : String) (progress : ℕ) (now : Time) → Preserves Stands (update_progress i progress now)
  unfolding update_progress
  update_progress-Stands i progress now =
      bind_rule Stands
        (update_returning (has_id i) (λ t. record t { progress = progress; updated_at = now }))
        (λ _. pure tt)
        (update_returning-Stands (has_id i)
          (λ t. record t { progress = progress; updated_at = now }) (λ t. refl))
        (λ _ s h. h)

  cancel_event-Stands :
      (event_id : String) (now : Time) (i : String) (row : Option TaskSelect)
      → Preserves Stands (cancel_event event_id now i row)
  cancel_event-Stands event_id now i none = λ s h. h
  cancel_event-Stands event_id now i (some task) =
      bind_rule Stands (insert_event_in_tx event_id now i TaskEventPayload.cancelled)
        (λ e. pure (some (task, e)))
        (insert_event_in_tx-Stands event_id now i TaskEventPayload.cancelled) (λ e s h. h)

  cancel_task-Stands :
      (event_id : String) (now : Time) (i : String) → Preserves Stands (cancel_task event_id now i)
  unfolding cancel_task
  cancel_task-Stands event_id now i =
      transaction_rule Stands
        (update_returning p f >>= λ ts. cancel_event event_id now i (first ts))
        (bind_rule Stands (update_returning p f) (λ ts. cancel_event event_id now i (first ts))
          (update_returning-Stands p f (λ t. refl))
          (λ ts. cancel_event-Stands event_id now i (first ts)))
    where
      p : TaskSelect → Bool
      p t = t.id == i && status_in t.status (pending ∷ processing ∷ [])

      f : TaskSelect → TaskSelect
      f = set_status TaskStatus.cancelled (record no_change { completed_at = some (some now) }) now

  record_timeouts-Stands :
      (fresh : ℕ → String) (now : Time) (ts : List TaskSelect)
      → Preserves Stands (record_timeouts fresh now ts)
  unfolding record_timeouts
  record_timeouts-Stands fresh now [] db h = h
  record_timeouts-Stands fresh now (t ∷ ts) db h =
      let events = timeout_events fresh now db.events [] (ids_of (t ∷ ts)) in
      bind_rule Stands (insert_rows events)
        (λ _. pure (record { expired_count = length (t ∷ ts); events = events }))
        (insert_rows-Stands events) (λ _ s k. k) db h

  expire-Stands :
      (locked : String → Bool) (fresh : ℕ → String) (now : Time) (batch : ℕ)
      → Preserves Stands (expire_timed_out_tasks_batch locked fresh now batch)
  unfolding expire_timed_out_tasks_batch
  expire-Stands locked fresh now batch db h =
      let ids = ids_of (expired_rows locked now batch db.tasks) in
      let p = λ (t : TaskSelect). id_in ids t.id in
      let f = set_status TaskStatus.failed (timeout_patch now) now in
      transaction_rule Stands (update_returning p f >>= record_timeouts fresh now)
        (bind_rule Stands (update_returning p f) (record_timeouts fresh now)
          (update_returning-Stands p f (λ t. refl)) (record_timeouts-Stands fresh now))
        db h

  insert-Stands :
      (i : String) (now : Time) (values : TaskInsert) → Preserves Stands (insert i now values)
  unfolding insert tasks_valid_state_data
  insert-Stands i now values db h =
      if_rule (λ (r : Result TaskSelect × Db). Stands r.1)
        (any (has_id i) db.tasks || idempotency_key_taken values.idempotency_key db.tasks) _ _
        (λ _. h) (λ _. any-append (has_id id) db.tasks (default_row i now values ∷ []) h)

  -- A row with another id is not deleted with the rows of an id, or of some ids.
  delete-Stands :
      (p : String → Bool) (db : Db)
      → p id ≡ false
      → Stands db
      → any (has_id id) (delete (λ t. p t.id) db.tasks) ≡ true
  delete-Stands p db other h =
      any-delete (has_id id) (λ t. p t.id) (λ t e. ap p ((eq_iff t.id id).0 e) ∙ other) db.tasks ∙ h

module _ (id : String) (e : Ending) (terminal : is_terminal e.status ≡ true) where
  -- The rows older than the task's are not the task's.
  young-Other :
      (cutoff : Time) (ts : List TaskSelect)
      → ltb e.created_at cutoff ≡ false
      → All (HasEnding id e) ts
      → All (Other id e (terminal_closed e.status terminal)) (select (is_old cutoff) ts)
  unfolding select
  young-Other cutoff [] young h = tt
  young-Other cutoff (t ∷ ts) young h =
      if_rule (All (Other id e (terminal_closed e.status terminal))) (is_old cutoff t) _ _
        (λ m. (other m, young-Other cutoff ts young h.1)) (λ _. young-Other cutoff ts young h.1)
    where
      other : is_old cutoff t ≡ true → (t.id == id) ≡ false
      other m = elim (Bool-cases (t.id == id)) [
        | inl same ↦
            let (_, old) = &&-true _ (ltb t.created_at cutoff) m in
            let when : t.created_at ≡ e.created_at = ap (λ x. x.created_at) (h.0 same) in
            let wrong : true ≡ false = sym old ∙ ap (λ c. ltb c cutoff) when ∙ young in cc
        | inr different ↦ different
      ]

  exec-Stands :
      (s : Statement)
      → Keeps id e.created_at s
      → (db : Db) → IsEnded id e db
      → Stands id db
      → Stands id (exec s db)
  unfolding exec delete_by_id insert_event
  exec-Stands (insert_row i now values) k db ended h = insert-Stands id i now values db h
  exec-Stands (delete_row i) k db ended h =
      let other : (id == i) ≡ false = eq_sym id i ∙ k in delete-Stands id (λ j. j == i) db other h
  exec-Stands (set_row i source to extra now) k db ended h =
      update_status-Stands id i (statuses source) to extra now db h
  exec-Stands (set_progress i progress now) k db ended h =
      update_progress-Stands id i progress now db h
  exec-Stands (add_event event_id now i payload) k db ended h =
      transaction_rule (Stands id) (insert_event_in_tx event_id now i payload)
        (insert_event_in_tx-Stands id event_id now i payload) db h
  exec-Stands (cancel_row event_id now i) k db ended h = cancel_task-Stands id event_id now i db h
  exec-Stands (expire_rows locked fresh now batch) k db ended h =
      expire-Stands id locked fresh now batch db h
  exec-Stands (delete_old_rows cutoff) k db ended h =
      delete-Stands id (id_in (ids_of (old_rows cutoff db.tasks))) db
        (ids_of-Other id e (terminal_closed e.status terminal) retention_delete_batch_size
          (select (is_old cutoff) db.tasks) (young-Other cutoff db.tasks k ended))
        h

  Keeps-Spares : (s : Statement) → Keeps id e.created_at s → Spares id s
  Keeps-Spares (insert_row i now values) k = k
  Keeps-Spares (delete_row i) k = tt
  Keeps-Spares (set_row i source to extra now) k = tt
  Keeps-Spares (set_progress i progress now) k = tt
  Keeps-Spares (add_event event_id now i payload) k = tt
  Keeps-Spares (cancel_row event_id now i) k = tt
  Keeps-Spares (expire_rows locked fresh now batch) k = tt
  Keeps-Spares (delete_old_rows cutoff) k = tt

  pub Reaches-Stands :
      {db db' : Db}
      → Reaches (Keeps id e.created_at) db db'
      → IsEnded id e db
      → Stands id db
      → IsEnded id e db' × Stands id db'
  Reaches-Stands start ended h = (ended, h)
  Reaches-Stands (after s {db'} k r) ended h =
      let (ended', stands) = Reaches-Stands r ended h in
      (
        exec-IsEnded id e terminal s (Keeps-Spares s k) db' ended',
        exec-Stands s k db' ended' stands,
      )

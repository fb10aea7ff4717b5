-- ===== src/System/Statement/Ended.antt =====
-- A task that has ended keeps its ending.
pub mod Rows
pub mod Standing
use async_long_request_proxy.Prelude.{
  ℕ, zero, suc, String, ◌≡◌, refl, sym, ap, ◌∙◌, Option, none, some, Bool, true, false, not, ◌&&◌,
  ◌||◌, List, [], ◌∷◌, ◌++◌, map, ◌==◌, any, all, take, All, All-append, Bool-cases, inl, inr,
  &&-true, eq_iff, length, arith, if_rule, first,
}
use async_long_request_proxy.Result.{Result, pure, ◌>>=◌}
use async_long_request_proxy.Result.Preserves.{Preserves, bind_rule, transaction_rule}
use async_long_request_proxy.Table.{select}
use async_long_request_proxy.Table.Laws.{All-update, All-delete}
use async_long_request_proxy.Table.Keyed.{eq_sym}
use async_long_request_proxy.Tasks.Schema.{
  Time, TaskStatus, pending, processing, completed, failed, cancelled, status_in, is_terminal,
  TaskSelect, is_terminal, TaskInsert, tasks_valid_state_data, default_row, idempotency_key_taken,
}
use async_long_request_proxy.Tasks.Repository.{
  no_change, has_id, TaskPatch, set_status, insert, delete_by_id, update_returning, update_status,
  update_progress, cancel_event, cancel_task,
}
use async_long_request_proxy.Delivery.Schema.{TaskEventPayload, TaskEventSelect, Db}
use async_long_request_proxy.Delivery.Events.{seq_taken, insert_event_in_tx, insert_event}
use async_long_request_proxy.Maintenance.Repository.{
  is_expired, id_in, ids_of, expired_rows, timeout_patch, timeout_events, insert_rows,
  record_timeouts, expire_timed_out_tasks_batch, old_rows,
}
use async_long_request_proxy.System.Statement.{
  Source, from_pending, from_processing, statuses, Statement, insert_row, delete_row, set_row,
  set_progress, add_event, cancel_row, expire_rows, delete_old_rows, exec, Spares, Reaches, start,
  after,
}
use async_long_request_proxy.System.Statement.Ended.Rows.{
  Ending, HasEnding, IsEnded, not_ended, other-HasEnding, select-Other, ids_of-Other, not_in,
  terminal_closed,
}

module _ (id : String) (e : Ending) where
  -- An UPDATE whose rows either are other tasks or keep their ending.
  update_returning-IsEnded :
      (p : TaskSelect → Bool) (f : TaskSelect → TaskSelect)
      → ((t : TaskSelect) → p t ≡ true → HasEnding id e t → HasEnding id e (f t))
      → (db : Db) → IsEnded id e db
      → IsEnded id e (update_returning p f db).1
  unfolding update_returning
  update_returning-IsEnded p f k db h =
      elim (Bool-cases (all tasks_valid_state_data (map f (select p db.tasks)))) [
        | inl v ↦ rw v (All-update (HasEnding id e) p f k db.tasks h)
        | inr v ↦ rw v h
      ]

  insert_event_in_tx-IsEnded :
      (event_id : String) (now : Time) (t : String) (payload : TaskEventPayload)
      → Preserves (IsEnded id e) (insert_event_in_tx event_id now t payload)
  unfolding insert_event_in_tx
  insert_event_in_tx-IsEnded event_id now t payload db h =
      if_rule (λ (r : Result TaskEventSelect × Db). IsEnded id e r.1) (seq_taken t _ db.events) _ _
        (λ _. h) (λ _. h)

  insert_rows-IsEnded : (es : List TaskEventSelect) → Preserves (IsEnded id e) (insert_rows es)
  unfolding insert_rows
  insert_rows-IsEnded [] db h = h
  insert_rows-IsEnded (v ∷ vs) db h =
      if_rule (λ (r : Result (Unit {0}) × Db). IsEnded id e r.1)
        (seq_taken v.task_id v.seq db.events) _ _ (λ _. h)
        (λ _. insert_rows-IsEnded vs (record db { events = db.events ++ v ∷ [] }) h)

  module _ (terminal : is_terminal e.status ≡ true) where
    closed : status_in e.status (pending ∷ processing ∷ []) ≡ false
    closed = terminal_closed e.status terminal

    from_closed : (source : Source) → status_in e.status (statuses source) ≡ false
    from_closed from_pending = ground (arith, closed)
    from_closed from_processing = ground (arith, closed)

    update_status-IsEnded :
        (i : String) (source : Source) (to : TaskStatus) (extra : TaskPatch) (now : Time)
        → Preserves (IsEnded id e) (update_status i (statuses source) to extra now)
    unfolding update_status
    update_status-IsEnded i source to extra now =
        bind_rule (IsEnded id e) (update_returning p (set_status to extra now))
          (λ ts. pure (first ts))
          (update_returning-IsEnded p (set_status to extra now) (λ t m h.
            let (_, still_open) = &&-true (t.id == i) (status_in t.status (statuses source)) m in
            other-HasEnding id e t (set_status to extra now t) refl
              (not_ended id e (statuses source) t (from_closed source) h still_open)))
          (λ _ s h. h)
      where
        p : TaskSelect → Bool
        p t = t.id == i && status_in t.status (statuses source)

    update_progress-IsEnded :
        (i : String) (progress : ℕ) (now : Time)
        → Preserves (IsEnded id e) (update_progress i progress now)
    unfolding update_progress
    update_progress-IsEnded i progress now =
        bind_rule (IsEnded id e) (update_returning (has_id i) f) (λ _. pure tt)
          (update_returning-IsEnded (has_id i) f (λ t m h. h)) (λ _ s h. h)
      where
        f : TaskSelect → TaskSelect
        f t = record t { progress = progress; updated_at = now }

    cancel_task-IsEnded :
        (event_id : String) (now : Time) (i : String)
        → Preserves (IsEnded id e) (cancel_task event_id now i)
    unfolding cancel_task
    cancel_task-IsEnded event_id now i =
        transaction_rule (IsEnded id e)
          (update_returning p f >>= λ ts. cancel_event event_id now i (first ts))
          (bind_rule (IsEnded id e) (update_returning p f)
            (λ ts. cancel_event event_id now i (first ts))
            (update_returning-IsEnded p f (λ t m h.
              let (_, still_open) =
                &&-true (t.id == i) (status_in t.status (pending ∷ processing ∷ [])) m in
              other-HasEnding id e t (f t) refl
                (not_ended id e (pending ∷ processing ∷ []) t closed h still_open)))
            (λ ts. event (first ts)))
      where
        p : TaskSelect → Bool
        p t = t.id == i && status_in t.status (pending ∷ processing ∷ [])

        f : TaskSelect → TaskSelect
        f =
            set_status TaskStatus.cancelled (record no_change { completed_at = some (some now) })
              now

        event :
            (row : Option TaskSelect) → Preserves (IsEnded id e) (cancel_event event_id now i row)
        event none = λ s h. h
        event (some task) =
            bind_rule (IsEnded id e) (insert_event_in_tx event_id now i TaskEventPayload.cancelled)
              (λ e. pure (some (task, e)))
              (insert_event_in_tx-IsEnded event_id now i TaskEventPayload.cancelled) (λ e s h. h)

    record_timeouts-IsEnded :
        (fresh : ℕ → String) (now : Time) (ts : List TaskSelect)
        → Preserves (IsEnded id e) (record_timeouts fresh now ts)
    unfolding record_timeouts
    record_timeouts-IsEnded fresh now [] db h = h
    record_timeouts-IsEnded fresh now (t ∷ ts) db h =
        let events = timeout_events fresh now db.events [] (ids_of (t ∷ ts)) in
        bind_rule (IsEnded id e) (insert_rows events)
          (λ _. pure (record { expired_count = length (t ∷ ts); events = events }))
          (insert_rows-IsEnded events) (λ _ s k. k) db h

    expire-IsEnded :
        (locked : String → Bool) (fresh : ℕ → String) (now : Time) (batch : ℕ)
        → Preserves (IsEnded id e) (expire_timed_out_tasks_batch locked fresh now batch)
    unfolding expire_timed_out_tasks_batch expired_rows
    expire-IsEnded locked fresh now batch db h =
        let ids = ids_of (expired_rows locked now batch db.tasks) in
        let p = λ (t : TaskSelect). id_in ids t.id in
        let f = set_status TaskStatus.failed (timeout_patch now) now in
        let others =
          ids_of-Other id e closed batch _ (select-Other id e closed locked now db.tasks h) in
        transaction_rule (IsEnded id e) (update_returning p f >>= record_timeouts fresh now)
          (bind_rule (IsEnded id e) (update_returning p f) (record_timeouts fresh now)
            (update_returning-IsEnded p f
              (λ t m k. other-HasEnding id e t (f t) refl (not_in id e closed ids t.id m others)))
            (record_timeouts-IsEnded fresh now))
          db h

    insert-IsEnded :
        (i : String) (now : Time) (values : TaskInsert)
        → (i == id) ≡ false
        → Preserves (IsEnded id e) (insert i now values)
    unfolding insert tasks_valid_state_data
    insert-IsEnded i now values other db h =
        if_rule (λ (r : Result TaskSelect × Db). IsEnded id e r.1)
          (any (has_id i) db.tasks || idempotency_key_taken values.idempotency_key db.tasks) _ _
          (λ _. h)
          (λ _. All-append (HasEnding id e) db.tasks (default_row i now values ∷ []) h (
            other-HasEnding id e (default_row i now values) (default_row i now values) refl other,
            tt,
          ))

    pub exec-IsEnded :
        (s : Statement) → Spares id s → (db : Db) → IsEnded id e db → IsEnded id e (exec s db)
    unfolding exec delete_by_id insert_event
    exec-IsEnded (insert_row i now values) other db h = insert-IsEnded i now values other db h
    exec-IsEnded (delete_row i) _ db h = All-delete (HasEnding id e) (has_id i) db.tasks h
    exec-IsEnded (set_row i source to extra now) _ db h =
        update_status-IsEnded i source to extra now db h
    exec-IsEnded (set_progress i progress now) _ db h = update_progress-IsEnded i progress now db h
    exec-IsEnded (add_event event_id now i payload) _ db h =
        transaction_rule (IsEnded id e) (insert_event_in_tx event_id now i payload)
          (insert_event_in_tx-IsEnded event_id now i payload) db h
    exec-IsEnded (cancel_row event_id now i) _ db h = cancel_task-IsEnded event_id now i db h
    exec-IsEnded (expire_rows locked fresh now batch) _ db h =
        expire-IsEnded locked fresh now batch db h
    exec-IsEnded (delete_old_rows cutoff) _ db h =
        All-delete (HasEnding id e) (λ t. id_in (ids_of (old_rows cutoff db.tasks)) t.id) db.tasks h

    -- The statements of all requests and jobs may interleave in any way: each is one step, whoever
    -- runs it, and any may follow another. Once a task has ended, as completed, failed or
    -- cancelled, no such steps change its status, its result, its error, the time of its
    -- completion or that of its creation: its row still has them or has been deleted. The ids of
    -- new rows are not its id.
    pub Reaches-IsEnded :
        {db db' : Db} → Reaches (Spares id) db db' → IsEnded id e db → IsEnded id e db'
    Reaches-IsEnded start h = h
    Reaches-IsEnded (after s {db'} a r) h = exec-IsEnded s a db' (Reaches-IsEnded r h)

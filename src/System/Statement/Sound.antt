-- ===== src/System/Statement/Sound.antt =====
-- Every statement keeps the constraints of the schema and the numbering of the log.
use async_long_request_proxy.Prelude.{
  String, ◌≡◌, refl, Bool, true, false, List, [], ◌∷◌, Bool-cases, inl, inr, eq_iff, arith,
}
use async_long_request_proxy.Table.{delete}
use async_long_request_proxy.Table.Laws.{All-delete}
use async_long_request_proxy.Table.Keyed.{Pairwise-delete}
use async_long_request_proxy.Tasks.Repository.Integrity.{
  IsSound, insert-IsSound, delete_by_id-IsSound, update_status-IsSound, update_progress-IsSound,
  insert_event-IsSound, cancel_task-IsSound,
}
use async_long_request_proxy.Delivery.Schema.{TaskEventSelect, Db}
use async_long_request_proxy.Delivery.Events.Log.{seqs, IsLog}
use async_long_request_proxy.Maintenance.Repository.{id_in, ids_of, old_rows, delete_batch}
use async_long_request_proxy.Maintenance.Repository.Timeouts.{expire-IsSound}
use async_long_request_proxy.System.Statement.{
  Statement, insert_row, delete_row, set_row, set_progress, add_event, cancel_row, expire_rows,
  delete_old_rows, exec, statuses, Reaches, start, after,
}

module _ (p : String → Bool) (t : String) where
  seqs-delete_all :
      (es : List TaskEventSelect) → p t ≡ true → seqs t (delete (λ e. p e.task_id) es) ≡ []
  unfolding seqs delete
  seqs-delete_all [] h = refl
  seqs-delete_all (e ∷ es) h = ground (arith, h, eq_iff e.task_id t, seqs-delete_all es h)

  seqs-delete_none :
      (es : List TaskEventSelect) → p t ≡ false → seqs t (delete (λ e. p e.task_id) es) ≡ seqs t es
  unfolding seqs delete
  seqs-delete_none [] h = refl
  seqs-delete_none (e ∷ es) h = ground (arith, h, eq_iff e.task_id t, seqs-delete_none es h)

-- Deleting all events of some tasks.
delete-IsLog :
    (p : String → Bool) (es : List TaskEventSelect)
    → IsLog es
    → IsLog (delete (λ e. p e.task_id) es)
delete-IsLog p es log t = elim (Bool-cases (p t)) [
  | inl b ↦ rw (seqs-delete_all p t es b) refl
  | inr b ↦ rw (seqs-delete_none p t es b) (log t)
]

delete_batch-IsSound : (ids : List String) (db : Db) → IsSound db → IsSound (delete_batch ids db)
delete_batch-IsSound ids db s = record {
  valid = All-delete _ (λ t. id_in ids t.id) db.tasks s.valid;
  keys = Pairwise-delete _ (λ t. id_in ids t.id) db.tasks s.keys;
  idempotency_keys = Pairwise-delete _ (λ t. id_in ids t.id) db.tasks s.idempotency_keys;
  log = delete-IsLog (id_in ids) db.events s.log;
}

pub exec-IsSound : (s : Statement) (db : Db) → IsSound db → IsSound (exec s db)
unfolding exec
exec-IsSound (insert_row id now values) db h = insert-IsSound id now values db h
exec-IsSound (delete_row id) db h = delete_by_id-IsSound id db h
exec-IsSound (set_row id source to extra now) db h =
    update_status-IsSound id (statuses source) to extra now db h
exec-IsSound (set_progress id progress now) db h = update_progress-IsSound id progress now db h
exec-IsSound (add_event event_id now id payload) db h =
    insert_event-IsSound event_id now id payload db h
exec-IsSound (cancel_row event_id now id) db h = cancel_task-IsSound event_id now id db h
exec-IsSound (expire_rows locked fresh now batch) db h = expire-IsSound fresh now locked batch db h
exec-IsSound (delete_old_rows cutoff) db h =
    delete_batch-IsSound (ids_of (old_rows cutoff db.tasks)) db h

-- Whatever statements are run, in whatever order, tables that keep their constraints still do: each
-- row satisfies the CHECK constraint, ids and idempotency keys differ, and the events of each task
-- are numbered from 1 without a gap.
pub Reaches-IsSound :
    {Allowed : Statement → Type 0} {db db' : Db} → Reaches Allowed db db' → IsSound db → IsSound db'
Reaches-IsSound start h = h
Reaches-IsSound (after s {db'} a r) h = exec-IsSound s db' (Reaches-IsSound r h)

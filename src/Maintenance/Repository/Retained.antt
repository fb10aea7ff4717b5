-- ===== src/Maintenance/Repository/Retained.antt =====
-- The loop of `deleteOldData`: it ends, and what it leaves is what is not old.
use async_long_request_proxy.Prelude.{
  ℕ, zero, suc, ◌+◌, ◌-◌, ◌*◌, ap, String, ◌≤◌, ◌<◌, ◌≡◌, refl, sym, ◌∙◌, Bool, true, false, List,
  [], ◌∷◌, any, All, arith, take, leb, length, if_rule,
}
use async_long_request_proxy.Table.{select, delete}
use async_long_request_proxy.Table.Keyed.{IsKeyed, Pairwise-delete}
use async_long_request_proxy.Table.Batches.{All-key_in, any-batch}
use async_long_request_proxy.Tasks.Schema.{Time, TaskSelect}
use async_long_request_proxy.Tasks.Repository.Integrity.{IsSound}
use async_long_request_proxy.Delivery.Schema.{TaskEventSelect, Db}
use async_long_request_proxy.Maintenance.Repository.{
  DataRetentionResult, retention_delete_batch_size, id_in, ids_of, is_old, old_rows, delete_batch,
  add_deleted, delete_loop, delete_old_data,
}
use async_long_request_proxy.Maintenance.Repository.Retention.{
  take_all, delete-batch, delete-last_batch,
}
use async_long_request_proxy.Maintenance.Repository.Purged.{
  length-select-delete, delete-both, delete-nothing, take-none, key_in-batch,
}

module _ {ℓ} {A : Type ℓ} where
  delete-shorter : (p : A → Bool) (ts : List A) → length (delete p ts) ≤ length ts
  unfolding delete
  delete-shorter p [] = omega arith
  delete-shorter p (t ∷ ts) = ground (arith, delete-shorter p ts)

  delete-strictly :
      (p : A → Bool) (ts : List A) → any p ts ≡ true → length (delete p ts) < length ts
  unfolding delete
  delete-strictly p [] h = cc
  delete-strictly p (t ∷ ts) h = ground (arith, delete-strictly p ts, delete-shorter p ts)

  any-All :
      (p : A → Bool) (ts : List A) → All (λ t. p t ≡ true) ts → 0 < length ts → any p ts ≡ true
  any-All p [] h k = ground (arith, k)
  any-All p (t ∷ ts) h k = rw h.0 refl

  nothing-selected :
      (q : A → Bool) (n : ℕ) (ts : List A)
      → length (take (suc n) (select q ts)) ≤ 0
      → delete q ts ≡ ts
  unfolding select delete
  nothing-selected q n [] h = refl
  nothing-selected q n (t ∷ ts) h = ground (arith, nothing-selected q n ts)

leb-false : (a b : ℕ) → leb a b ≡ false → b < a
leb-false a b h = ground (arith, h)

leb-true : (a b : ℕ) → leb a b ≡ true → a ≤ b
leb-true a b h = ground (arith, h)

module _ (cutoff : Time) where
  -- A batch that is not empty deletes something.
  batch-strictly :
      (ts : List TaskSelect)
      → 0 < length (old_rows cutoff ts)
      → length (delete (λ t. id_in (ids_of (old_rows cutoff ts)) t.id) ts) < length ts
  batch-strictly ts some_rows =
      let rows = old_rows cutoff ts in
      let p = λ (t : TaskSelect). id_in (ids_of rows) t.id in
      delete-strictly p ts (
        any-batch p (is_old cutoff) retention_delete_batch_size ts
          (any-All p rows (All-key_in (λ t. t.id) rows) some_rows))

  -- The events of the old tasks.
  abbrev pub is_event_of_old : List TaskSelect → TaskEventSelect → Bool
  is_event_of_old ts e = id_in (ids_of (select (is_old cutoff) ts)) e.task_id

  -- The loop has ended, nothing old is left, and what is missing has been counted.
  record IsRetained (total : DataRetentionResult) (db : Db) (r : Bool × DataRetentionResult × Db)
      : Type 0 where
    ended : r.0 ≡ true
    tasks : r.2.tasks ≡ delete (is_old cutoff) db.tasks
    events : r.2.events ≡ delete (is_event_of_old db.tasks) db.events
    tasks_count :
        r.1.deleted_tasks_count + length r.2.tasks ≡ total.deleted_tasks_count + length db.tasks
    events_count :
        r.1.deleted_events_count + length r.2.events ≡ total.deleted_events_count + length db.events

  -- Nothing is old.
  nothing-IsRetained :
      (total : DataRetentionResult) (db : Db)
      → length (old_rows cutoff db.tasks) ≤ 0
      → IsRetained total db (true, total, db)
  nothing-IsRetained total db h =
      let empty = take-none 499 (select (is_old cutoff) db.tasks) h in
      record {
        ended = refl;
        tasks = sym (nothing-selected (is_old cutoff) 499 db.tasks h);
        events = sym (delete-nothing (is_event_of_old db.tasks) db.events (λ e. rw empty refl));
        tasks_count = refl;
        events_count = refl;
      }

  -- The counts of one batch.
  batch-counts :
      (ids : List String) (total : DataRetentionResult) (db : Db)
      → let total' = add_deleted ids db total in
        let db' = delete_batch ids db in
        (total'.deleted_tasks_count + length db'.tasks
          ≡ total.deleted_tasks_count + length db.tasks)
        × (total'.deleted_events_count + length db'.events
            ≡ total.deleted_events_count + length db.events)
  batch-counts ids total db = (
    omega (arith, length-select-delete (λ t. id_in ids t.id) db.tasks),
    omega (arith, length-select-delete (λ e. id_in ids e.task_id) db.events),
  )

  delete_loop_lem :
      (fuel : ℕ) (total : DataRetentionResult) (db : Db)
      → IsKeyed (λ t. t.id) db.tasks
      → length db.tasks < fuel
      → IsRetained total db (delete_loop fuel cutoff total db)
  unfolding delete_loop
  delete_loop_lem zero total db keyed enough = ground (arith, enough)
  delete_loop_lem (suc fuel) total db keyed enough =
      let rows = old_rows cutoff db.tasks in
      let ids = ids_of rows in
      let db' = delete_batch ids db in
      let counts = batch-counts ids total db in
      if_rule (IsRetained total db) (leb (length rows) 0) _ _
        (λ e. nothing-IsRetained total db (leb-true _ _ e))
        (λ e.
          if_rule (IsRetained total db) (leb retention_delete_batch_size (length rows)) _ _
            (λ full.
              let shorter = batch-strictly db.tasks (leb-false _ _ e) in
              let again =
                delete_loop_lem fuel (add_deleted ids db total) db'
                  (Pairwise-delete _ (λ t. id_in ids t.id) db.tasks keyed)
                  (omega (arith, shorter, enough)) in
              record {
                ended = again.ended;
                tasks =
                    again.tasks
                    ∙ delete-batch (λ t. t.id) (is_old cutoff) db.tasks keyed
                        retention_delete_batch_size;
                events =
                    again.events
                    ∙ delete-both (λ e. id_in ids e.task_id) (is_event_of_old db'.tasks)
                        (is_event_of_old db.tasks) db.events
                        (λ e.
                          key_in-batch (λ t. t.id) (is_old cutoff) retention_delete_batch_size
                            db.tasks e.task_id);
                tasks_count = again.tasks_count ∙ counts.0;
                events_count = again.events_count ∙ counts.1;
              })
            (λ few.
              let whole =
                take_all retention_delete_batch_size (select (is_old cutoff) db.tasks)
                  (leb-false _ _ few) in
              record {
                ended = refl;
                tasks =
                    delete-last_batch (λ t. t.id) (is_old cutoff) db.tasks keyed
                      retention_delete_batch_size (leb-false _ _ few);
                events = ap (λ ts. delete (λ e. id_in (ids_of ts) e.task_id) db.events) whole;
                tasks_count = counts.0;
                events_count = counts.1;
              }))

-- Data retention ends, given one round more than there are tasks. It deletes exactly the tasks in a
-- terminal status that were created before the cutoff, with exactly their events: every PENDING and
-- PROCESSING task and every task within the retention period stays as it is, with its events. The
-- two counts of the result are the numbers of the rows that are gone.
pub delete_old_data_lem :
    (fuel : ℕ) (now : Time) (retention_days : ℕ) (db : Db)
    → IsSound db
    → length db.tasks < fuel
    → let cutoff = now - retention_days * 86400000 in
      let (has_ended, counts, after) = delete_old_data fuel now retention_days db in
      (has_ended ≡ true)
      × (after.tasks ≡ delete (is_old cutoff) db.tasks)
      × (after.events ≡ delete (is_event_of_old cutoff db.tasks) db.events)
      × (counts.deleted_tasks_count + length after.tasks ≡ length db.tasks)
      × (counts.deleted_events_count + length after.events ≡ length db.events)
unfolding delete_old_data
delete_old_data_lem fuel now days db sound enough =
    let r =
      delete_loop_lem (now - days * 86400000) fuel
        (record { deleted_events_count = 0; deleted_tasks_count = 0 }) db sound.keys enough in
    let tasks : 0 + length db.tasks ≡ length db.tasks = omega arith in
    let events : 0 + length db.events ≡ length db.events = omega arith in
    (r.ended, r.tasks, r.events, r.tasks_count ∙ tasks, r.events_count ∙ events)

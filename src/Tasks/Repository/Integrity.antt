-- ===== src/Tasks/Repository/Integrity.antt =====
-- The constraints of the schema, as an invariant that every statement of the repository keeps.
pub mod Rows
pub use Rows.{IsSound}
use async_long_request_proxy.Prelude.{
  ℕ, ◌≡◌, refl, ◌∙◌, String, Bool, true, false, ◌&&◌, ◌||◌, Option, none, some, List, [], ◌∷◌, map,
  ◌==◌, first, all, any, All, All-append, &&-true, ||-false, if◌then◌else◌, Bool-cases, inl, inr,
}
use async_long_request_proxy.Result.{pure, ◌>>=◌}
use async_long_request_proxy.Result.Preserves.{Preserves, bind_rule, transaction_rule}
use async_long_request_proxy.Table.{select, update}
use async_long_request_proxy.Table.Laws.{All-delete, find-All}
use async_long_request_proxy.Table.Keyed.{
  Pairwise, Pairwise-append, Pairwise-delete, Pairwise-update, IsKeyed, any-false, eq_sym,
}
use async_long_request_proxy.Tasks.Schema.{
  Time, TaskStatus, status_in, TaskSelect, TaskInsert, tasks_valid_state_data, default_row,
  has_idempotency_key, idempotency_key_taken,
}
use async_long_request_proxy.Delivery.Schema.{TaskEventPayload, Db}
use async_long_request_proxy.Delivery.Events.{insert_event_in_tx, insert_event, new_event, next_seq}
use async_long_request_proxy.Delivery.Events.Log.{IsLog, insert_event_in_tx_lem, append-IsLog}
use async_long_request_proxy.Tasks.Repository.{
  has_id, insert, delete_by_id, find_by_id, update_returning, update_progress, TaskPatch,
  set_status, update_status, cancel_task, cancel_event, no_change,
}
use async_long_request_proxy.Tasks.Repository.Integrity.Rows.{
  IsValid, OtherKey, OtherIdempotencyKey, update-IsValid, idempotency_key_free, id_free,
}

module _ (p : TaskSelect → Bool) (f : TaskSelect → TaskSelect)
    (same_id : (t : TaskSelect) → (f t).id ≡ t.id)
    (same_key : (t : TaskSelect) → (f t).idempotency_key ≡ t.idempotency_key) where
  abbrev changed : TaskSelect → TaskSelect
  changed t = if p t then f t else t

  changed_id : (t : TaskSelect) → (changed t).id ≡ t.id
  changed_id t = elim (Bool-cases (p t)) [ inl e ↦ rw e (same_id t) | inr e ↦ rw e ]

  changed_key : (t : TaskSelect) → (changed t).idempotency_key ≡ t.idempotency_key
  changed_key t = elim (Bool-cases (p t)) [ inl e ↦ rw e (same_key t) | inr e ↦ rw e ]

  -- An UPDATE that leaves the keys alone, refused or not.
  pub update_returning-IsSound : (db : Db) → IsSound db → IsSound (update_returning p f db).1
  unfolding update_returning
  update_returning-IsSound db s =
      elim (Bool-cases (all tasks_valid_state_data (map f (select p db.tasks)))) [
        | inl v ↦ rw v (record {
          valid = update-IsValid p f db.tasks v s.valid;
          keys = Pairwise-update _ p f (λ t u h. rw (changed_id t, changed_id u) h) db.tasks s.keys;
          idempotency_keys =
              Pairwise-update _ p f (λ t u h. rw (changed_key t, changed_key u) h) db.tasks
                s.idempotency_keys;
          log = s.log;
        })
        | inr v ↦ rw v s
      ]

-- An INSERT, refused or not.
pub insert-IsSound :
    (id : String) (now : Time) (values : TaskInsert) (db : Db)
    → IsSound db
    → IsSound (insert id now values db).1
unfolding insert tasks_valid_state_data
insert-IsSound id now values db s =
    elim (Bool-cases
      (any (has_id id) db.tasks || idempotency_key_taken values.idempotency_key db.tasks)) [
        | inl taken ↦ rw taken s
        | inr free ↦
            let parts = ||-false _ _ free in
            rw free (record {
              valid = All-append _ db.tasks (row ∷ []) s.valid (refl, tt);
              keys = Pairwise-append _ db.tasks row (id_free id db.tasks parts.0) s.keys;
              idempotency_keys =
                  Pairwise-append _ db.tasks row
                    (idempotency_key_free values.idempotency_key db.tasks parts.1)
                    s.idempotency_keys;
              log = s.log;
            })
      ]
  where
    row : TaskSelect
    row = default_row id now values

pub delete_by_id-IsSound : (id : String) (db : Db) → IsSound db → IsSound (delete_by_id id db).1
unfolding delete_by_id
delete_by_id-IsSound id db s = record {
  valid = All-delete _ (has_id id) db.tasks s.valid;
  keys = Pairwise-delete _ (has_id id) db.tasks s.keys;
  idempotency_keys = Pairwise-delete _ (has_id id) db.tasks s.idempotency_keys;
  log = s.log;
}

insert_event_in_tx-IsSound :
    (id : String) (now : Time) (t : String) (payload : TaskEventPayload)
    → Preserves IsSound (insert_event_in_tx id now t payload)
insert_event_in_tx-IsSound id now t payload db s = rw insert_event_in_tx_lem (record {
  valid = s.valid;
  keys = s.keys;
  idempotency_keys = s.idempotency_keys;
  log = append-IsLog db.events (new_event id now t payload (next_seq t db.events)) refl s.log;
})

pub insert_event-IsSound :
    (id : String) (now : Time) (t : String) (payload : TaskEventPayload)
    → Preserves IsSound (insert_event id now t payload)
unfolding insert_event
insert_event-IsSound id now t payload =
    transaction_rule IsSound (insert_event_in_tx id now t payload)
      (insert_event_in_tx-IsSound id now t payload)

pub update_progress-IsSound :
    (id : String) (progress : ℕ) (now : Time) (db : Db)
    → IsSound db
    → IsSound (update_progress id progress now db).1
unfolding update_progress
update_progress-IsSound id progress now =
    bind_rule IsSound (update_returning p f) (λ _. pure tt)
      (update_returning-IsSound p f (λ t. refl) (λ t. refl)) (λ _ s h. h)
  where
    p : TaskSelect → Bool
    p = has_id id

    f : TaskSelect → TaskSelect
    f t = record t { progress = progress; updated_at = now }

pub update_status-IsSound :
    (id : String) (from : List TaskStatus) (to : TaskStatus) (extra : TaskPatch) (now : Time)
    (db : Db)
    → IsSound db
    → IsSound (update_status id from to extra now db).1
unfolding update_status
update_status-IsSound id from to extra now =
    bind_rule IsSound (update_returning p f) (λ ts. pure (first ts))
      (update_returning-IsSound p f (λ t. refl) (λ t. refl)) (λ _ s h. h)
  where
    p : TaskSelect → Bool
    p t = t.id == id && status_in t.status from

    f : TaskSelect → TaskSelect
    f = set_status to extra now

-- The cancellation with its event, as one transaction.
pub cancel_task-IsSound :
    (event_id : String) (now : Time) (id : String) (db : Db)
    → IsSound db
    → IsSound (cancel_task event_id now id db).1
unfolding cancel_task
cancel_task-IsSound event_id now id =
    transaction_rule IsSound
      (update_returning p f >>= λ ts. cancel_event event_id now id (first ts))
      (bind_rule IsSound (update_returning p f) (λ ts. cancel_event event_id now id (first ts))
        (update_returning-IsSound p f (λ t. refl) (λ t. refl)) (λ ts. event (first ts)))
  where
    p : TaskSelect → Bool
    p t = t.id == id && status_in t.status (TaskStatus.pending ∷ TaskStatus.processing ∷ [])

    f : TaskSelect → TaskSelect
    f = set_status TaskStatus.cancelled (record no_change { completed_at = some (some now) }) now

    event : (row : Option TaskSelect) → Preserves IsSound (cancel_event event_id now id row)
    event none = λ s h. h
    event (some task) =
        bind_rule IsSound (insert_event_in_tx event_id now id TaskEventPayload.cancelled)
          (λ e. pure (some (task, e)))
          (insert_event_in_tx-IsSound event_id now id TaskEventPayload.cancelled) (λ e s h. h)

-- A row of a sound table satisfies the CHECK constraint.
pub valid_row :
    (db : Db) (id : String) (t : TaskSelect)
    → IsSound db
    → find_by_id id db ≡ some t
    → tasks_valid_state_data t ≡ true
unfolding find_by_id
valid_row db id t s h = find-All _ (has_id id) db.tasks s.valid h

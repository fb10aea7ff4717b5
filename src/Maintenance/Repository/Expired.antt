-- ===== src/Maintenance/Repository/Expired.antt =====
-- The rows of a sweeper's batch: expired PROCESSING tasks become FAILED.
use async_long_request_proxy.Prelude.{
  ℕ, String, ◌≡◌, refl, Bool, true, false, not, ◌&&◌, List, [], ◌∷◌, ◌++◌, map, any, all, length,
  All, arith, Bool-cases, inl, inr,
}
use async_long_request_proxy.Result.{ok, err, check_violation, commit_or_roll_back}
use async_long_request_proxy.Table.{select, update}
use async_long_request_proxy.Table.Keyed.{any-false}
use async_long_request_proxy.Tasks.Schema.{
  Time, pending, failed, status_eq, TaskSelect, tasks_valid_state_data,
}
use async_long_request_proxy.Tasks.Repository.{set_status, update_returning}
use async_long_request_proxy.Tasks.Repository.Integrity.{IsSound}
use async_long_request_proxy.Delivery.Schema.{Db}
use async_long_request_proxy.Maintenance.Repository.{
  id_in, ids_of, is_expired, expired_rows, timeout_patch, expire_timed_out_tasks_batch,
}
use async_long_request_proxy.Maintenance.Repository.Timeouts.{timeouts_of, record_timeouts_lem}
use async_long_request_proxy.Maintenance.Repository.Retention.{All-zip, Selected, batch-Selected}

all-good :
    (v p : TaskSelect → Bool) (f : TaskSelect → TaskSelect) (ts : List TaskSelect)
    → All (λ t. p t ≡ true → v (f t) ≡ true) ts
    → all v (map f (select p ts)) ≡ true
unfolding select
all-good v p f [] h = refl
all-good v p f (t ∷ ts) h = elim (Bool-cases (p t)) [
  | inl e ↦ rw (e, h.0 e) (all-good v p f ts h.1)
  | inr e ↦ rw e (all-good v p f ts h.1)
]

abbrev pub is_open : (String → Bool) → Time → TaskSelect → Bool
is_open locked now t = is_expired now t && not (locked t.id)

in_flight-valid :
    (locked : String → Bool) (now : Time) (t : TaskSelect)
    → is_open locked now t ≡ true
    → (is_open locked now t && status_eq t.status pending) ≡ false
    → tasks_valid_state_data t ≡ true
    → tasks_valid_state_data (set_status failed (timeout_patch now) now t) ≡ true
unfolding tasks_valid_state_data
in_flight-valid locked now t o n v = ground arith

-- The rows that the batch names, and what becomes of one.
abbrev pub in_batch : (String → Bool) → Time → ℕ → Db → TaskSelect → Bool
in_batch locked now batch db t = id_in (ids_of (expired_rows locked now batch db.tasks)) t.id

abbrev pub timed_out : Time → TaskSelect → TaskSelect
timed_out now = set_status failed (timeout_patch now) now

-- A batch whose rows may all become FAILED.
pub expire_done :
    (locked : String → Bool) (fresh : ℕ → String) (now : Time) (batch : ℕ) (db : Db)
    → IsSound db
    → all tasks_valid_state_data
        (map (timed_out now) (select (in_batch locked now batch db) db.tasks))
      ≡ true
    → let changed = map (timed_out now) (select (in_batch locked now batch db) db.tasks) in
      let events = timeouts_of fresh now db changed in
      expire_timed_out_tasks_batch locked fresh now batch db ≡ (
        ok (record { expired_count = length changed; events = events }),
        record {
          tasks = update (in_batch locked now batch db) (timed_out now) db.tasks;
          events = db.events ++ events;
        },
      )
unfolding expire_timed_out_tasks_batch update_returning
expire_done locked fresh now batch db sound valid =
    let changed = map (timed_out now) (select (in_batch locked now batch db) db.tasks) in
    let (done, written, kept) =
      record_timeouts_lem fresh now changed
        (record db { tasks = update (in_batch locked now batch db) (timed_out now) db.tasks })
        sound.log in
    rw valid (λ i. commit_or_roll_back (done i) db (written i))

-- A batch with a row that may not is refused.
pub expire_stopped :
    (locked : String → Bool) (fresh : ℕ → String) (now : Time) (batch : ℕ) (db : Db)
    → all tasks_valid_state_data
        (map (timed_out now) (select (in_batch locked now batch db) db.tasks))
      ≡ false
    → expire_timed_out_tasks_batch locked fresh now batch db ≡ (err check_violation, db)
unfolding expire_timed_out_tasks_batch update_returning
expire_stopped locked fresh now batch db invalid = rw invalid refl

module _ (locked : String → Bool) (fresh : ℕ → String) (now : Time) (batch : ℕ) (db : Db)
    (sound : IsSound db)
    (no_pending : any (λ t. is_open locked now t && status_eq t.status pending) db.tasks
      ≡ false) where
  pub batch_valid :
      all tasks_valid_state_data
        (map (timed_out now) (select (in_batch locked now batch db) db.tasks))
      ≡ true
  unfolding expired_rows
  batch_valid =
      let waits = λ (t : TaskSelect). is_open locked now t && status_eq t.status pending in
      let both =
        All-zip (λ t. waits t ≡ false) (λ t. tasks_valid_state_data t ≡ true)
          (λ t. (waits t ≡ false) × (tasks_valid_state_data t ≡ true)) (λ t h k. (h, k)) db.tasks
          (any-false waits db.tasks no_pending) sound.valid in
      all-good tasks_valid_state_data (in_batch locked now batch db) (timed_out now) db.tasks (
        All-zip (Selected (λ t. t.id) (is_open locked now) batch db.tasks)
          (λ t. (waits t ≡ false) × (tasks_valid_state_data t ≡ true))
          (λ t.
            in_batch locked now batch db t ≡ true → tasks_valid_state_data (timed_out now t) ≡ true)
          (λ t a h b. in_flight-valid locked now t (a b) h.0 h.1) db.tasks
          (batch-Selected (λ t. t.id) (is_open locked now) db.tasks sound.keys batch) both)

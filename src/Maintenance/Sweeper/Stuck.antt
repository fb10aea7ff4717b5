-- ===== src/Maintenance/Sweeper/Stuck.antt =====
-- A PENDING task past its deadline stops the sweeper: the CHECK constraint refuses its update, and
-- with it the update of the whole batch.
use async_long_request_proxy.Prelude.{
  ℕ, suc, String, ◌≡◌, refl, Bool, true, false, not, ◌&&◌, map, any, all, arith,
}
use async_long_request_proxy.Result.{err, check_violation}
use async_long_request_proxy.Table.{select}
use async_long_request_proxy.Table.Batches.{any-both, any-batch, all-bad, All-key_in}
use async_long_request_proxy.Tasks.Schema.{
  Time, pending, failed, status_eq, TaskSelect, tasks_valid_state_data,
}
use async_long_request_proxy.Tasks.Repository.{set_status, update_returning}
use async_long_request_proxy.Tasks.Repository.Integrity.{IsSound}
use async_long_request_proxy.Delivery.Schema.{Db}
use async_long_request_proxy.World.{World}
use async_long_request_proxy.Maintenance.Repository.{
  id_in, ids_of, is_expired, expired_rows, timeout_patch, expire_timed_out_tasks_batch,
}
use async_long_request_proxy.Maintenance.Sweeper.{
  sweep_batch_size, Round, threw, after_batch, sweep,
}

abbrev pub is_pending : TaskSelect → Bool
is_pending t = status_eq t.status pending

abbrev timed_out : Time → TaskSelect → TaskSelect
timed_out now t = set_status failed (timeout_patch now) now t

-- A valid PENDING row has no `processing_started_at`, and a FAILED row needs one.
pending-invalid :
    (now : Time) (t : TaskSelect)
    → is_pending t ≡ true
    → tasks_valid_state_data t ≡ true
    → tasks_valid_state_data (timed_out now t) ≡ false
unfolding tasks_valid_state_data
pending-invalid now t p v = ground arith

module _ (locked : String → Bool) (fresh : ℕ → String) (now : Time) (batch : ℕ) (db : Db)
    (sound : IsSound db)
    (waiting : any is_pending (expired_rows locked now batch db.tasks) ≡ true) where
  all_invalid :
      all tasks_valid_state_data (
        map
          (timed_out now)
          (select (λ t. id_in (ids_of (expired_rows locked now batch db.tasks)) t.id) db.tasks))
      ≡ false
  unfolding expired_rows
  all_invalid =
      let rows = expired_rows locked now batch db.tasks in
      let found =
        any-both is_pending (λ t. id_in (ids_of rows) t.id) rows waiting
          (All-key_in (λ t. t.id) rows) in
      all-bad (λ t. tasks_valid_state_data t ≡ true) tasks_valid_state_data is_pending
        (λ t. id_in (ids_of rows) t.id) (timed_out now) (pending-invalid now) db.tasks sound.valid
        (any-batch (λ t. is_pending t && id_in (ids_of rows) t.id)
          (λ t. is_expired now t && not (locked t.id)) batch db.tasks found)

  -- If a batch of expired tasks has a PENDING one, the statement is refused and no task is expired.
  pub expire_refused :
      expire_timed_out_tasks_batch locked fresh now batch db ≡ (err check_violation, db)
  unfolding expire_timed_out_tasks_batch update_returning
  expire_refused = rw all_invalid refl

-- Over tables that keep their constraints, a round whose batch has an expired PENDING task ends the
-- sweep with the refusal of the CHECK constraint: nothing is expired, no event is recorded or
-- published, and the next round stands before the same rows.
pub sweep_refused :
    (rounds : ℕ → Round) (fuel n total : ℕ) (w : World)
    → IsSound w.db
    → any is_pending (expired_rows (rounds n).locked (rounds n).now sweep_batch_size w.db.tasks)
      ≡ true
    → sweep rounds (suc fuel) n total w ≡ (threw check_violation, w)
unfolding sweep after_batch
sweep_refused rounds fuel n total w sound waiting =
    rw
      (expire_refused (rounds n).locked (rounds n).fresh (rounds n).now sweep_batch_size w.db sound
        waiting)
      refl

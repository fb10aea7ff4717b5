-- ===== src/Examples/Maintaining.antt =====
-- A sweep that meets an expired PENDING task, and data retention, at concrete inputs.
use async_long_request_proxy.Prelude.{
  ◌+◌, none, some, Bool-cases, inl, inr, ◌==◌, eq_iff, sym, ap, ◌∙◌, ℕ, ◌-◌, ◌*◌, ◌≡◌, refl, String,
  Bool, true, false, [], ◌∷◌, ◌++◌, length, arith,
}
use async_long_request_proxy.Result.{check_violation, replied, ok}
use async_long_request_proxy.Table.{select, delete}
use async_long_request_proxy.Tasks.Schema.{TaskStatus, tasks_valid_state_data}
use async_long_request_proxy.Tasks.Repository.{no_change, set_status}
use async_long_request_proxy.Tasks.Repository.Integrity.{IsSound}
use async_long_request_proxy.Delivery.Schema.{TaskEventPayload, Db}
use async_long_request_proxy.Delivery.Events.Log.{seqs}
use async_long_request_proxy.Maintenance.Repository.{
  is_old, expired_rows, delete_old_data, expire_timed_out_tasks_batch,
}
use async_long_request_proxy.Maintenance.Repository.Retained.{is_event_of_old, delete_old_data_lem}
use async_long_request_proxy.Maintenance.Sweeper.{Round, threw, sweep}
use async_long_request_proxy.Maintenance.Sweeper.Ended.{open_tasks, HasEnded, sweep-HasEnded}
use async_long_request_proxy.Maintenance.Sweeper.Stuck.{sweep_refused}
use async_long_request_proxy.Maintenance.Repository.Limited.{first_rows, change_first}
use async_long_request_proxy.Maintenance.Repository.TimedOut.{
  is_due, failed_row, failed_events, expire_in_flight,
}
use async_long_request_proxy.Examples.{
  pending_row, processing_row, with_row, world_of, with_pending-IsSound, with_processing-IsSound,
}

abbrev pub at_noon : ℕ → Round
at_noon n = record { now = 400000; locked = λ id. false; fresh = λ k. "e"; publish = λ id. replied }

sweep_refused_example :
    sweep at_noon 4 0 0 (world_of (with_row pending_row))
    ≡ (threw check_violation, world_of (with_row pending_row))
unfolding expired_rows select
sweep_refused_example =
    sweep_refused at_noon 3 0 0 (world_of (with_row pending_row)) with_pending-IsSound refl

-- A task that was cancelled, and one that is not over, with one event each.
abbrev old_and_new : Db
old_and_new = record {
  tasks =
      set_status TaskStatus.cancelled (record no_change { completed_at = some (some 5000) }) 5000
        pending_row
      ∷ record processing_row { id = "t2"; idempotency_key = none }
      ∷ [];
  events =
      record {
        id = "e1";
        task_id = "t1";
        seq = 1;
        payload = TaskEventPayload.cancelled;
        created_at = 5000;
      }
      ∷ record {
        id = "e2";
        task_id = "t2";
        seq = 1;
        payload = TaskEventPayload.progress 10;
        created_at = 6000;
      }
      ∷ [];
}

old_and_new-IsSound : IsSound old_and_new
unfolding tasks_valid_state_data seqs
old_and_new-IsSound = record {
  valid = (refl, (refl, tt));
  keys = ((refl, tt), (tt, tt));
  idempotency_keys = ((tt, tt), (tt, tt));
  log = λ t. elim (Bool-cases ("t1" == t)) [
    | inl a ↦ elim (Bool-cases ("t2" == t)) [
      | inl b ↦
          let same : ◌≡◌ {A = String} "t1" "t2" = (eq_iff "t1" t).0 a ∙ sym ((eq_iff "t2" t).0 b) in
          let wrong : true ≡ false = ap (λ s. s == "t1") same in cc
      | inr b ↦ rw (a, b) refl
    ]
    | inr a ↦ elim (Bool-cases ("t2" == t)) [ inl b ↦ rw (a, b) refl | inr b ↦ rw (a, b) refl ]
  ];
}

delete_old_data_lem_example :
    let cutoff = 864000000 - 1 * 86400000 in
    let (has_ended, counts, after) = delete_old_data 3 864000000 1 old_and_new in
    (has_ended ≡ true)
    × (after.tasks ≡ delete (is_old cutoff) old_and_new.tasks)
    × (after.events ≡ delete (is_event_of_old cutoff old_and_new.tasks) old_and_new.events)
    × (counts.deleted_tasks_count + length after.tasks ≡ length old_and_new.tasks)
    × (counts.deleted_events_count + length after.events ≡ length old_and_new.events)
delete_old_data_lem_example =
    delete_old_data_lem 3 864000000 1 old_and_new old_and_new-IsSound (omega arith)

abbrev nothing_locked : String → Bool
nothing_locked id = false

abbrev fresh_id : ℕ → String
fresh_id k = "e"

expire_in_flight_example :
    let db = with_row processing_row in
    let rows = first_rows (is_due nothing_locked 400000) 500 db.tasks in
    let events = failed_events fresh_id 400000 db.events 0 rows in
    expire_timed_out_tasks_batch nothing_locked fresh_id 400000 500 db ≡ (
      ok (record { expired_count = length rows; events = events }),
      record {
        tasks = change_first (is_due nothing_locked 400000) (failed_row 400000) 500 db.tasks;
        events = db.events ++ events;
      },
    )
expire_in_flight_example =
    expire_in_flight nothing_locked fresh_id 400000 500 (with_row processing_row)
      with_processing-IsSound refl

-- There the one row is due.
one_due :
    first_rows (is_due nothing_locked 400000) 500 (with_row processing_row).tasks
    ≡ processing_row ∷ []
unfolding first_rows
one_due = refl

sweep-HasEnded_example : HasEnded (sweep at_noon 2 0 0 (world_of (with_row processing_row)))
sweep-HasEnded_example =
    sweep-HasEnded at_noon 2 0 0 (world_of (with_row processing_row)) with_processing-IsSound
      (unfold open_tasks in omega arith)

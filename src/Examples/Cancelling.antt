-- ===== src/Examples/Cancelling.antt =====
-- Cancellations at concrete inputs.
use async_long_request_proxy.Prelude.{◌<◌, ◌≤◌, ℕ, ◌≡◌, refl, false, none, some, [], ◌∷◌, ◌++◌}
use async_long_request_proxy.Result.{not_found, conflict, ok, err, replied}
use async_long_request_proxy.Table.{find}
use async_long_request_proxy.Tasks.Schema.{TaskSelect, status_in}
use async_long_request_proxy.Tasks.Repository.{find_by_id}
use async_long_request_proxy.Tasks.Repository.CompareAndSet.{view}
use async_long_request_proxy.Tasks.Service.{Cancelling, cancel_by_user}
use async_long_request_proxy.Tasks.Service.Cancellation.{
  open_statuses, cancelled_row, cancelled_event, cancel_jobs, cancel_refused, cancel_accepted,
}
use async_long_request_proxy.HttpRetry.{Reply, failure}
use async_long_request_proxy.Executor.Cancel.{cancel_options, process_cancel}
use async_long_request_proxy.HttpRetry.Attempts.{requests_due}
use async_long_request_proxy.System.Cancelled.{
  accepted, dispatched_late, told, tidings, cancelled_task,
}
use async_long_request_proxy.Examples.Dispatching.{busy_once}
use async_long_request_proxy.Examples.{
  pending_row, processing_row, with_row, world_of, with_pending-IsSound, with_processing-IsSound,
}

abbrev asked : Cancelling
asked = record {
  now = 5000;
  event_id = "e1";
  update = replied;
  find = replied;
  publish = replied;
  enqueue = replied;
}

cancel_refused_example :
    let w = world_of (with_row pending_row) in
    (view w.db "t2" ≡ none → cancel_by_user asked "t2" w ≡ (err not_found, w))
    × ((t : TaskSelect)
        → view w.db "t2" ≡ some t
        → status_in t.status open_statuses ≡ false
        → cancel_by_user asked "t2" w ≡ (err conflict, w))
cancel_refused_example =
    cancel_refused asked "t2" (world_of (with_row pending_row)) with_pending-IsSound refl refl

nothing_there :
    cancel_by_user asked "t2" (world_of (with_row pending_row))
    ≡ (err not_found, world_of (with_row pending_row))
unfolding find_by_id find
nothing_there = cancel_refused_example.0 refl

cancel_accepted_example :
    let w = world_of (with_row processing_row) in
    let w' = (cancel_by_user asked "t1" w).1 in
    let event = cancelled_event "e1" 5000 "t1" w.db in
    ((cancel_by_user asked "t1" w).0 ≡ ok tt)
    × (view w'.db "t1" ≡ some (cancelled_row 5000 processing_row))
    × (w'.db.events ≡ w.db.events ++ event ∷ [])
    × (w'.published ≡ w.published ++ record { channel = "t1"; event = event } ∷ [])
    × (w'.jobs ≡ w.jobs ++ cancel_jobs "t1" (some "https://executor/cancel"))
    × (w'.sent ≡ w.sent)
unfolding find_by_id find
cancel_accepted_example =
    cancel_accepted asked "t1" (world_of (with_row processing_row)) with_processing-IsSound refl
      processing_row refl refl refl refl

-- The executor answers the cancellation with 503 twice; the late dispatch job could have gone on.
abbrev busy : ℕ → Reply
busy n = failure (record { status = some 503; code = none })

cancelled_task_example :
    let w = world_of (with_row pending_row) in
    let late = dispatched_late asked busy_once 300 busy (λ n. 0) "t1" w in
    let last = told asked busy_once 300 busy (λ n. 0) "t1" w in
    (late ≡ accepted asked busy_once 300 busy (λ n. 0) "t1" w)
    × ((process_cancel busy (λ n. 0) replied "t1" late).0 ≡ ok tt)
    × (view last.db "t1" ≡ some (cancelled_row 5000 pending_row))
    × (last.sent
        ≡ w.sent ++ tidings busy (λ n. 0) "t1" pending_row (some "https://executor/cancel"))
    × (last.jobs ≡ w.jobs ++ cancel_jobs "t1" (some "https://executor/cancel"))
    × (0 < requests_due cancel_options busy (λ n. 0))
    × (requests_due cancel_options busy (λ n. 0) ≤ 2)
unfolding find_by_id find
cancelled_task_example =
    cancelled_task asked busy_once 300 busy (λ n. 0) "t1" (world_of (with_row pending_row))
      pending_row with_pending-IsSound refl refl refl refl refl

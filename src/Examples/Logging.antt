-- ===== src/Examples/Logging.antt =====
-- The event log and the repository at concrete inputs.
use async_long_request_proxy.Prelude.{◌-◌, ◌≡◌, String, some, [], ◌∷◌, map, length, count_up}
use async_long_request_proxy.Result.{IsOk}
use async_long_request_proxy.Tasks.Schema.{pending, processing, status_in}
use async_long_request_proxy.Delivery.Schema.{TaskEventPayload, Db}
use async_long_request_proxy.Delivery.Events.{insert_event, find_events_since}
use async_long_request_proxy.Delivery.Events.Log.{seqs, IsLog, insert_event-IsLog}
use async_long_request_proxy.Delivery.Events.Replay.{find_events_since-seqs}
use async_long_request_proxy.Tasks.Repository.{no_change, set_status, update_status}
use async_long_request_proxy.Tasks.Repository.CompareAndSet.{
  view, compare_and_set, update_status-refines,
}
use async_long_request_proxy.Examples.{pending_row, with_row, with_pending-IsSound}

abbrev progressed : Db
progressed = (insert_event "e1" 3000 "t1" (TaskEventPayload.progress 40) (with_row pending_row)).1

insert_event-IsLog_example :
    IsOk (insert_event "e1" 3000 "t1" (TaskEventPayload.progress 40) (with_row pending_row)).0
    × IsLog progressed.events
insert_event-IsLog_example =
    insert_event-IsLog "e1" 3000 "t1" (TaskEventPayload.progress 40) (with_row pending_row)
      with_pending-IsSound.log

find_events_since-seqs_example :
    map (λ e. e.seq) (find_events_since "t1" 0 progressed.events)
    ≡ count_up 0 (length (seqs "t1" progressed.events) - 0)
find_events_since-seqs_example =
    find_events_since-seqs "t1" 0 progressed.events insert_event-IsLog_example.1

update_status-refines_example :
    let extra = record no_change { processing_started_at = some (some 2000) } in
    let db = with_row pending_row in
    let done = update_status "t1" (pending ∷ []) processing extra 2000 db in
    let reference =
      compare_and_set "t1"
        (λ t. status_in t.status (pending ∷ []))
        (set_status processing extra 2000)
        (view db "t1")
        (view db) in
    (done.0 ≡ reference.0) × ((j : String) → view done.1 j ≡ reference.1 j)
update_status-refines_example =
    update_status-refines "t1" (pending ∷ []) processing
      (record no_change { processing_started_at = some (some 2000) }) 2000 (with_row pending_row)
      with_pending-IsSound.keys

-- ===== src/Examples/Results.antt =====
-- Results pushed by the executor, at concrete inputs.
use async_long_request_proxy.Prelude.{◌≡◌, refl, some, [], ◌∷◌}
use async_long_request_proxy.Result.{ok, replied}
use async_long_request_proxy.Table.{find}
use async_long_request_proxy.Tasks.Repository.{find_by_id}
use async_long_request_proxy.Tasks.Repository.CompareAndSet.{view}
use async_long_request_proxy.Executor.Service.{SubmitResultDto, Calls, completed, submit_result}
use async_long_request_proxy.Executor.Service.Submission.{
  final_row, final_event, webhook_jobs, submit_result_accepted,
}
use async_long_request_proxy.Examples.{processing_row, with_row, world_of, with_processing-IsSound}

abbrev answered : Calls
answered = record {
  now = 7000;
  event_id = "e1";
  update = replied;
  insert = replied;
  publish = replied;
  enqueue = replied;
}

abbrev done : SubmitResultDto
done = completed "{\"pages\":3}"

submit_result_accepted_example :
    let w = world_of (with_row processing_row) in
    let w' = (submit_result answered processing_row done w).1 in
    ((submit_result answered processing_row done w).0 ≡ ok tt)
    × (view w'.db "t1" ≡ some (final_row answered processing_row done processing_row))
    × (w'.db.events ≡ final_event answered processing_row done w.db ∷ [])
    × (w'.published
        ≡ record { channel = "t1"; event = final_event answered processing_row done w.db } ∷ [])
    × (w'.jobs ≡ webhook_jobs answered processing_row done (some "https://client/hook"))
    × (w'.sent ≡ [])
unfolding find_by_id find
submit_result_accepted_example =
    submit_result_accepted answered processing_row done (world_of (with_row processing_row))
      processing_row with_processing-IsSound refl refl refl refl refl refl

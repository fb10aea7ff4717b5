-- ===== src/Examples/Dispatching.antt =====
-- Dispatch jobs at concrete inputs.
use async_long_request_proxy.Prelude.{
  ◌<◌, ◌≤◌, ◌≡◌, refl, none, some, List, [], ◌∷◌, nat_eq, if◌then◌else◌,
}
use async_long_request_proxy.Result.{ok, replied}
use async_long_request_proxy.Table.{find}
use async_long_request_proxy.Tasks.Repository.{find_by_id}
use async_long_request_proxy.Tasks.Repository.CompareAndSet.{view}
use async_long_request_proxy.World.{repeated}
use async_long_request_proxy.HttpRetry.{failure, success}
use async_long_request_proxy.Executor.Dispatch.{Run, process}
use async_long_request_proxy.Executor.Dispatch.Concluded.{starts_of}
use async_long_request_proxy.Executor.Dispatch.Once.{
  DispatchJob, senders, process_all, starts_of-process_all,
}
use async_long_request_proxy.Executor.Dispatch.Settled.{
  settled, requests_of, reply_of, start_request, process_pending,
}
use async_long_request_proxy.Examples.{pending_row, with_row, world_of, with_pending-IsSound}

-- The executor answers 503 at first and then accepts.
abbrev pub busy_once : Run
busy_once = record {
  now = 2000;
  later = 9000;
  reply = λ i.
      if nat_eq i 0
      then failure (record { status = some 503; code = none })
      else success "accepted";
  jitter = λ i. 17;
  message = λ e. "failed";
  claim = replied;
  settle = replied;
  revert = replied;
}

-- The same job, twice.
abbrev twice : List DispatchJob
twice = ("t1", 300, busy_once) ∷ ("t1", 300, busy_once) ∷ []

starts_of-process_all_example :
    (senders "t1" twice (world_of (with_row pending_row)) ≤ 1)
    × (starts_of "t1" (process_all twice (world_of (with_row pending_row))).sent ≤ 3)
starts_of-process_all_example =
    starts_of-process_all "t1" twice (world_of (with_row pending_row)) with_pending-IsSound refl

process_pending_example :
    let w = world_of (with_row pending_row) in
    ((process busy_once "t1" 300 w).0 ≡ ok tt)
    × (view (process busy_once "t1" 300 w).1.db "t1"
        ≡ some (settled busy_once 300 (reply_of busy_once) pending_row))
    × ((process busy_once "t1" 300 w).1.sent
        ≡ repeated (requests_of busy_once) (start_request "t1" pending_row))
    × (0 < requests_of busy_once)
    × (requests_of busy_once ≤ 3)
unfolding find_by_id find
process_pending_example =
    process_pending busy_once "t1" 300 (world_of (with_row pending_row)) with_pending-IsSound
      pending_row refl refl refl refl

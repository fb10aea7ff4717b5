-- ===== src/Maintenance/Sweeper.antt =====
-- src/modules/maintenance/workers: the sweeper of timed-out tasks and the data retention job.
pub mod Stuck
pub mod Ended
use async_long_request_proxy.Prelude.{
  ℕ, zero, suc, ◌+◌, String, Bool, List, [], ◌∷◌, if◌then◌else◌, nat_eq,
}
use async_long_request_proxy.Result.{Error, Result, ok, err, App, Outcome, quietly, perform}
use async_long_request_proxy.Tasks.Schema.{Time}
use async_long_request_proxy.Delivery.Schema.{TaskEventSelect}
use async_long_request_proxy.World.{World, on_db, publish}
use async_long_request_proxy.Maintenance.Repository.{
  TimeoutSweeperResult, expire_timed_out_tasks_batch,
}

abbrev pub sweep_batch_size : ℕ
sweep_batch_size = 500

-- What surrounds one round: the clock, the rows that are locked, the ids of the new events and the
-- fate of each publication.
pub record Round : Type 0 where
  pub now : Time
  pub locked : String → Bool
  pub fresh : ℕ → String
  pub publish : String → Outcome

-- Promise.allSettled: each failure is logged.
unfoldable pub publish_all : (String → Outcome) → List TaskEventSelect → World → World
publish_all fate [] w = w
publish_all fate (e ∷ es) w =
    publish_all fate es (quietly (perform (fate e.task_id) (publish e.task_id e)) w).1

-- How `process` ends: it returns the number expired, it throws, or the fuel does not do.
pub data Swept : Type 0 where
  still_running : Swept
  finished : ℕ → Swept
  threw : Error → Swept

-- The body of the loop after a batch; `again` is the next round.
unfoldable pub after_batch :
    Round → (ℕ → World → Swept × World) → ℕ → Result TimeoutSweeperResult → World → Swept × World
after_batch round again total (err e) w = (threw e, w)
after_batch round again total (ok batch) w =
    if nat_eq batch.expired_count 0
    then (finished total, w)
    else again (total + batch.expired_count) (publish_all round.publish batch.events w)

-- `process` from its round `n` on, with the number expired so far.
unfoldable pub sweep : (ℕ → Round) → ℕ → ℕ → ℕ → World → Swept × World
sweep rounds zero n total w = (still_running, w)
sweep rounds (suc fuel) n total w =
    let round = rounds n in
    let (r, w') =
      on_db (expire_timed_out_tasks_batch round.locked round.fresh round.now sweep_batch_size) w in
    after_batch round (sweep rounds fuel (suc n)) total r w'

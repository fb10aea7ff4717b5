-- ===== src/Maintenance/DataRetention.antt =====
-- src/modules/maintenance/workers/data-retention.processor.ts: the job that deletes old tasks.
use async_long_request_proxy.Prelude.{ℕ, nat_eq, if◌then◌else◌}
use async_long_request_proxy.Tasks.Schema.{Time}
use async_long_request_proxy.Delivery.Schema.{Db}
use async_long_request_proxy.Config.{AppConfig}
use async_long_request_proxy.Maintenance.Repository.{DataRetentionResult, delete_old_data}

-- The last entry of the log, or that the loop has not ended within its fuel.
pub data Retained : Type 0 where
  still_running : Retained
  nothing_to_delete : Retained
  deleted : (tasks events : ℕ) → Retained

abbrev pub logged : DataRetentionResult → Retained
logged r =
    if nat_eq r.deleted_tasks_count 0
    then nothing_to_delete
    else deleted r.deleted_tasks_count r.deleted_events_count

unfoldable pub process_retention : ℕ → Time → AppConfig → Db → Retained × Db
process_retention fuel now config db =
    let (ended, total, db') = delete_old_data fuel now config.maintenance.data_retention_days db in
    (if ended then logged total else still_running, db')

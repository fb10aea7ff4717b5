-- ===== src/Workers.antt =====
-- The start of the BullMQ workers: onModuleInit of dispatch.processor.ts, cancel.processor.ts and
-- webhook.processor.ts, and of the two repeatable jobs in src/modules/maintenance/workers. A
-- schedule that cannot be registered and a job that fails only add an entry to the log.
use async_long_request_proxy.Prelude.{ℕ, String}
use async_long_request_proxy.Result.{Result, ok, err}
use async_long_request_proxy.Text.{Text}
use async_long_request_proxy.Redis.Connection.{Connection}
use async_long_request_proxy.Queue.Adapter.{QueueConfig, create_bull_mq_connection}
use async_long_request_proxy.Config.{AppConfig}

-- new Worker(name, process, { connection, concurrency })
pub record Worker : Type 0 where
  pub queue_name : String
  pub connection : Connection
  pub concurrency : ℕ

abbrev pub worker_on : String → ℕ → Result Connection → Result Worker
worker_on queue_name concurrency (err e) = err e
worker_on queue_name concurrency (ok connection) =
    ok (record { queue_name = queue_name; connection = connection; concurrency = concurrency })

abbrev pub start_worker : String → ℕ → QueueConfig → Result Worker
start_worker queue_name concurrency c =
    worker_on queue_name concurrency (create_bull_mq_connection c)

abbrev pub start_dispatch : QueueConfig → Result Worker
start_dispatch = start_worker "dispatch" 10

abbrev pub start_cancel : QueueConfig → Result Worker
start_cancel = start_worker "cancel" 5

abbrev pub start_webhook : QueueConfig → Result Worker
start_webhook = start_worker "webhook" 20

-- The arguments of upsertJobScheduler.
pub record JobScheduler : Type 0 where
  pub id : String
  pub pattern : Text
  pub tz : String
  pub name : String
  pub attempts : ℕ

-- A repeatable job has a queue and a worker, each with a connection of its own.
pub record Repeatable : Type 0 where
  pub queue_connection : Connection
  pub worker : Worker
  pub scheduler : JobScheduler

abbrev pub with_worker : Connection → JobScheduler → Result Worker → Result Repeatable
with_worker connection scheduler (err e) = err e
with_worker connection scheduler (ok worker) =
    ok (record { queue_connection = connection; worker = worker; scheduler = scheduler })

abbrev pub with_queue : String → QueueConfig → JobScheduler → Result Connection → Result Repeatable
with_queue queue_name c scheduler (err e) = err e
with_queue queue_name c scheduler (ok connection) =
    with_worker connection scheduler (start_worker queue_name 1 c)

abbrev pub start_repeatable : String → JobScheduler → QueueConfig → Result Repeatable
start_repeatable queue_name scheduler c =
    with_queue queue_name c scheduler (create_bull_mq_connection c)

unfoldable pub start_sweeper : QueueConfig → AppConfig → Result Repeatable
start_sweeper c config =
    start_repeatable "maintenance-timeout-sweep"
      (record {
        id = "timeout-sweep";
        pattern = config.maintenance.timeout_sweeper_cron;
        tz = "UTC";
        name = "sweep";
        attempts = 1;
      })
      c

unfoldable pub start_retention : QueueConfig → AppConfig → Result Repeatable
start_retention c config =
    start_repeatable "maintenance-data-retention"
      (record {
        id = "data-retention";
        pattern = config.maintenance.data_retention_cron;
        tz = "UTC";
        name = "retain";
        attempts = 1;
      })
      c

-- ===== src/Lib.antt =====
-- The async long request proxy: clients submit tasks over HTTP and get 202 with the task's id; a
-- worker process posts each task to an executor, which answers 202 too and later calls back with
-- progress and a result; the client learns of it by polling, by an SSE stream or by a webhook.
--
-- The parts, and the files that model them (paths from the repository's root):
-- - Result: the errors that the services throw and methods on a state that may throw; `perform`
--   says what becomes of one awaited call: answered, refused, or done with the answer lost.
-- - Text: the texts whose characters the code looks at, and ECMAScript's trim, split, parseInt,
--   String(n) and Number(s) on them.
-- - Table: SELECT, UPDATE, DELETE on a list of rows, the lemmas about keys, and batches by LIMIT.
-- - Tasks: src/modules/tasks/schemas/tasks.sql.ts (Tasks/Schema), tasks.repository.ts
--   (Tasks/Repository), tasks.service.ts with dto/tasks.dto.ts (Tasks/Service), tasks.controller.ts
--   (Tasks/Controller).
-- - Delivery: src/modules/delivery/schemas/events.sql.ts (Delivery/Schema), events.repository.ts
--   (Delivery/Events), sse.service.ts (Delivery/Sse), stream.controller.ts
--   (Delivery/StreamController), workers/webhook.processor.ts (Delivery/Webhook).
-- - HttpRetry: libs/http-retry/http-retry.service.ts and errors.ts.
-- - Redis: libs/redis/cluster-nodes.util.ts (Redis/ClusterNodes), and redis.service.ts: its options
--   (Redis/Connection), its clients and commands (Redis/Client), its scans (Redis/Scan).
-- - Config: src/config/env.schema.ts (Config/Schema), app.config.ts and redis.factory.ts.
-- - Queue: libs/queue/queue.types.ts and the job that `enqueue` adds; bullmq.adapter.ts with its
--   pool of queues (Queue/Adapter).
-- - Workers: the onModuleInit of the five processors.
-- - Idempotency: libs/idempotency/idempotency.service.ts, over a Redis server given by its commands.
-- - World: the database, the jobs, the published messages and the HTTP requests sent, one for each
--   attempt of the HTTP client, which the services and the workers share.
-- - Executor: src/modules/executor/workers/dispatch.processor.ts (Executor/Dispatch),
--   executor.service.ts with dto/executor.dto.ts (Executor/Service), guards/callback-auth.guard.ts
--   with executor.controller.ts (Executor/Guard), workers/cancel.processor.ts (Executor/Cancel).
-- - Maintenance: src/modules/maintenance/maintenance.repository.ts (Maintenance/Repository),
--   workers/timeout-sweeper.processor.ts (Maintenance/Sweeper) and data-retention.processor.ts
--   (Maintenance/DataRetention).
-- - Health: libs/observability/health.controller.ts and the files of indicators.
-- - Common: src/common/guards/api-key.guard.ts (Common/ApiKey), exceptions/zod-exception.filter.ts
--   (Common/ExceptionFilter), middleware/http-logger.middleware.ts (Common/HttpLogger) and
--   request-id.middleware.ts (Common/RequestId), decorators/parse.decorators.ts (Common/Parse), and
--   libs/logger/logger.service.ts (Common/AppLogger).
-- - System: what the two processes do to the shared state, one call after another: the statements
--   that the services and the workers run (System/Statement, System/Services), the calls themselves
--   (System/Actions), one task from its dispatch to its webhook (System/Lifecycle), and one that its
--   client cancels (System/Cancelled).
-- - Examples: sample data, and the theorems at concrete inputs.
--
-- How the state corresponds: a table is the list of its rows in the order in which the server scans
-- them, JSON is its text, a time is a number of milliseconds, and clock readings, random UUIDs,
-- random jitter, replies of other servers and the fate of each awaited call are arguments. Each SQL
-- statement and each transaction is one step, as the server runs it: an UPDATE that breaks a CHECK
-- constraint or a unique index is refused as a whole. A method is the sequence of its awaited
-- calls; the reads of getStatus, of the callback guard and of a stream's opening are answered, as a
-- failed one throws at once and leaves everything as it is. The calls of System/Actions run one
-- after another; calls that interleave are not modelled there. The names are those of the code,
-- with words joined by underscores.
--
-- Bounds and fuel: `post` makes as many rounds as `attempts` says. `delete_loop`, `sweep` and
-- `scan_from` run on fuel: retention ends given one round more than there are tasks, the sweeper
-- given one round more than there are tasks that have not ended, a scan given as many rounds as
-- there are pages. A day of retention is 24 hours, where the code sets the local date back, which
-- differs by an hour over a change of the clocks. Numbers do not overflow: sequence numbers and times are taken to stay below
-- 2 ^ 53; the numbers that Number(s) reads are rounded to doubles.
--
-- Parameters: `Buffer.from`, the Redis commands of the slots, the servers of a scan, `duplicate` of
-- ioredis, zod's checks of numbers (`int`, `positive`, `min`) and zod's `parse` of bodies.
--
-- Not modelled: NestJS wiring and ParseUUIDPipe, the zod schemas of the bodies, what the OpenAPI
-- generator is told, the texts of the logs and how pino prints them, the metrics, the handlers of
-- 'error' events of connections, the pool of PostgreSQL, and the migrations. They are calls of
-- third-party packages with no logic of the repository's own.
pub mod Prelude
pub mod Result
pub mod Text
pub mod Table
pub mod Tasks
pub mod Delivery
pub mod HttpRetry
pub mod Redis
pub mod Config
pub mod Queue
pub mod World
pub mod Executor
pub mod Workers
pub mod Maintenance
pub mod Health
pub mod Idempotency
pub mod Common
pub mod System
mod Examples

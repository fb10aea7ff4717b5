-- ===== src/World.antt =====
-- What the two processes share: the database, the queues, and what they have published to the
-- Redis channels and posted to other services.
pub mod Lifting
use async_long_request_proxy.Prelude.{ℕ, zero, suc, String, Option, List, [], ◌∷◌, ◌++◌}
use async_long_request_proxy.Result.{Result, ok, App}
use async_long_request_proxy.Tasks.Schema.{Json, TaskStatus, TaskError, TaskSelect}
use async_long_request_proxy.Delivery.Schema.{TaskEventSelect, Db}
use async_long_request_proxy.Tasks.Repository.{find_by_id}
use async_long_request_proxy.Queue.{AddedJob}
use async_long_request_proxy.HttpRetry.{Progress}

-- An HTTP request: the URL, the body and the bearer token.
pub data Request : Type 0 where
  dispatch_request : String → String → Json → String → Request
  cancel_request : String → String → String → Request
  webhook_request : String → String → TaskStatus → Option Json → Option TaskError → Request

-- An event on the channel `task:<id>`.
pub record Message : Type 0 where
  pub channel : String
  pub event : TaskEventSelect

pub record World : Type 0 where
  pub db : Db
  pub jobs : List AddedJob
  pub published : List Message
  pub sent : List Request

abbrev pub on_db : {A : Type 0} → App Db A → App World A
on_db m w = let (r, db') = m w.db in (r, record w { db = db' })

abbrev pub on_jobs : {A : Type 0} → App (List AddedJob) A → App World A
on_jobs m w = let (r, jobs') = m w.jobs in (r, record w { jobs = jobs' })

-- tasksRepo.findById
abbrev pub read_task : String → App World (Option TaskSelect)
read_task id w = (ok (find_by_id id w.db), w)

-- redis.client.publish
abbrev pub publish : String → TaskEventSelect → App World Unit
publish task_id event w = (
  ok tt,
  record w { published = w.published ++ record { channel = task_id; event = event } ∷ [] },
)

-- The same request, sent a number of times.
abbrev pub repeated : ℕ → Request → List Request
repeated zero r = []
repeated (suc n) r = r ∷ repeated n r

-- `HttpRetryService.post`: one request for each attempt that its loop makes.
abbrev pub send : Request → Result Json × Progress → World → World
send r (answer, progress) w = record w { sent = w.sent ++ repeated progress.requests r }

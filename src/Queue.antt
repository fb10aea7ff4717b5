-- ===== src/Queue.antt =====
-- libs/queue: the queue adapter. `queue.add` of BullMQ is recorded: a job stands in the list of
-- jobs from the moment that it is added, with the number of attempts that it is given. `enqueue` is
-- what the services see; the adapter's own queues and connections are in the child module.
pub mod Adapter
use async_long_request_proxy.Prelude.{ℕ, String, Option, none, some, List, [], ◌∷◌, ◌++◌}
use async_long_request_proxy.Result.{ok, App}

-- The data of a job, with the queue that it goes to.
pub data QueueJob : Type 0 where
  dispatch : String → ℕ → QueueJob
  webhook : String → QueueJob
  cancel : String → QueueJob

pub record JobOptions : Type 0 where
  pub priority : Option ℕ
  pub delay : Option ℕ
  pub attempts : Option ℕ
  pub backoff : Option ℕ

abbrev pub no_options : JobOptions
no_options = record { priority = none; delay = none; attempts = none; backoff = none }

-- A job as BullMQ is given it: `attempts` defaults to 3, the other options are passed on.
pub record AddedJob : Type 0 where
  pub job : QueueJob
  pub attempts : ℕ
  pub priority : Option ℕ
  pub delay : Option ℕ
  pub backoff : Option ℕ

abbrev pub attempts_or_default : Option ℕ → ℕ
attempts_or_default none = 3
attempts_or_default (some n) = n

abbrev pub added : QueueJob → JobOptions → AddedJob
added job options = record {
  job = job;
  attempts = attempts_or_default options.attempts;
  priority = options.priority;
  delay = options.delay;
  backoff = options.backoff;
}

abbrev pub enqueue : QueueJob → JobOptions → App (List AddedJob) Unit
enqueue job options jobs = (ok tt, jobs ++ added job options ∷ [])

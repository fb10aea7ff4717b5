-- ===== src/Executor/Dispatch.antt =====
-- src/modules/executor/workers/dispatch.processor.ts: the consumer of the `dispatch` queue.
pub mod Concluded
pub mod Budget
pub mod Once
pub mod Settled
use async_long_request_proxy.Prelude.{
  ℕ, ◌+◌, ◌*◌, String, Bool, true, false, Option, none, some, List, [], ◌∷◌, ◌++◌, if◌then◌else◌,
}
use async_long_request_proxy.Result.{
  Error, Result, ok, err, non_retryable, App, pure, raise, ◌>>=◌, ◌>>◌, quietly, Outcome, perform,
}
use async_long_request_proxy.Tasks.Schema.{
  Json, Time, TaskStatus, pending, processing, TaskError, TaskSelect,
}
use async_long_request_proxy.Tasks.Repository.{TaskPatch, no_change, update_status}
use async_long_request_proxy.HttpRetry.{HttpRetryOptions, default_options, Reply, start, post}
use async_long_request_proxy.HttpRetry.Attempts.{is_http_error}
use async_long_request_proxy.World.{World, Request, dispatch_request, on_db, send}

-- What surrounds one run: the clock at its start and at the later update, the executor's replies
-- to the attempts with their jitter, the text of an error, and the fate of the three updates.
pub record Run : Type 0 where
  pub now : Time
  pub later : Time
  pub reply : ℕ → Reply
  pub jitter : ℕ → ℕ
  pub message : Error → String
  pub claim : Outcome
  pub settle : Outcome
  pub revert : Outcome

abbrev pub token_or_empty : Option String → String
token_or_empty none = ""
token_or_empty (some token) = token

abbrev pub claim_patch : Time → ℕ → TaskPatch
claim_patch now timeout_seconds = record no_change {
  processing_started_at = some (some now);
  expires_at = some (some (now + timeout_seconds * 1000));
}

abbrev pub error_code : Error → String
error_code (non_retryable status) = "EXECUTOR_REJECTED"
error_code e = "DISPATCH_FAILED"

abbrev pub failure_patch : Run → Error → TaskPatch
failure_patch r e = record no_change {
  completed_at = some (some r.later);
  error = some (some (record { code = error_code e; message = r.message e; details = none }));
}

abbrev pub revert_patch : TaskPatch
revert_patch = record no_change { processing_started_at = some none; expires_at = some none }

module _ (r : Run) (task_id : String) where
  -- The `try` block's outcome and the `catch` block.
  unfoldable pub conclude : Result Json → App World Unit
  conclude (ok answer) = pure tt
  conclude (err e) =
      if is_http_error e
      then perform r.settle (
          on_db
            (update_status task_id (processing ∷ []) TaskStatus.failed (failure_patch r e) r.later))
        >>= (λ _. pure tt)
      else quietly (
          perform r.revert
            (on_db (update_status task_id (processing ∷ []) pending revert_patch r.later)))
        >>= (λ _. raise e)

  unfoldable pub deliver : Option TaskSelect → App World Unit
  deliver none w = (ok tt, w)
  deliver (some task) w =
      let posted = post (record default_options { attempts = 3 }) r.reply r.jitter start in
      conclude posted.0 (
        send
          (dispatch_request task.executor_url task_id task.payload
            (token_or_empty task.callback_token))
          posted w)

  unfoldable pub process : ℕ → App World Unit
  process timeout_seconds = do
    task ← perform r.claim (
        on_db (
          update_status task_id (pending ∷ []) processing (claim_patch r.now timeout_seconds)
            r.now))
    deliver task

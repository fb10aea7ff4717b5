-- ===== src/Tasks/Controller.antt =====
-- src/modules/tasks/tasks.controller.ts: the routes of the clients. Parsing and the check of the
-- body's schema come before them.
use Prim.Native.String.{◌++◌}
use async_long_request_proxy.Prelude.{ℕ, String, Option, none, some, truthy}
use async_long_request_proxy.Result.{internal_server_error, App, raise, pure, ◌>>=◌}
use async_long_request_proxy.Tasks.Schema.{Json, Time, TaskStatus, TaskError, TaskSelect}
use async_long_request_proxy.Idempotency.{Redis}
use async_long_request_proxy.World.{World}
use async_long_request_proxy.Tasks.Service.{
  CreateTaskDto, TaskCreatedResponseDto, Creating, Site, create, get_status, Cancelling,
  cancel_by_user,
}

-- TaskResponseSchema: the row without `callbackToken`.
pub record TaskResponseDto : Type 0 where
  pub id : String
  pub idempotency_key : Option String
  pub status : TaskStatus
  pub type : String
  pub payload : Json
  pub executor_url : String
  pub webhook_url : Option String
  pub cancel_url : Option String
  pub result : Option Json
  pub error : Option TaskError
  pub progress : ℕ
  pub timeout_seconds : ℕ
  pub processing_started_at : Option Time
  pub expires_at : Option Time
  pub completed_at : Option Time
  pub created_at : Time
  pub updated_at : Time

unfoldable pub public_task : TaskSelect → TaskResponseDto
public_task t = record {
  id = t.id;
  idempotency_key = t.idempotency_key;
  status = t.status;
  type = t.type;
  payload = t.payload;
  executor_url = t.executor_url;
  webhook_url = t.webhook_url;
  cancel_url = t.cancel_url;
  result = t.result;
  error = t.error;
  progress = t.progress;
  timeout_seconds = t.timeout_seconds;
  processing_started_at = t.processing_started_at;
  expires_at = t.expires_at;
  completed_at = t.completed_at;
  created_at = t.created_at;
  updated_at = t.updated_at;
}

module _ (R : Redis) (c : Creating) (dto : CreateTaskDto) (protocol : String) where
  abbrev pub create_at : Option String → App (Site R) TaskCreatedResponseDto
  create_at none = raise internal_server_error
  create_at (some host) = create R c dto (protocol ++ ("://" ++ host))

  -- POST /tasks, with the request's Host header.
  unfoldable pub post_task : Option String → App (Site R) TaskCreatedResponseDto
  post_task host = create_at (truthy host)

-- GET /tasks/:id
unfoldable pub get_task : String → App World TaskResponseDto
get_task id = get_status id >>= λ task. pure (public_task task)

-- DELETE /tasks/:id
unfoldable pub delete_task : Cancelling → String → App World Unit
delete_task c id = cancel_by_user c id

-- ===== src/Tasks/Schema.antt =====
-- src/modules/tasks/schemas/tasks.sql.ts: the statuses, the rows of `tasks` and its constraints.
-- A time is a number of milliseconds, JSON is its text, and a UUID is its text.
use async_long_request_proxy.Prelude.{
  ℕ, String, Bool, true, false, ◌&&◌, ◌||◌, Option, none, some, List, [], ◌∷◌, ◌==◌, is_some,
  is_none, any,
}

abbrev pub Json : Type 0
Json = String

abbrev pub Time : Type 0
Time = ℕ

pub data TaskStatus : Type 0 where
  pending processing completed failed cancelled : TaskStatus

abbrev pub status_eq : TaskStatus → TaskStatus → Bool
status_eq pending pending = true
status_eq processing processing = true
status_eq completed completed = true
status_eq failed failed = true
status_eq cancelled cancelled = true
status_eq _ _ = false

-- inArray(tasks.status, statuses)
abbrev pub status_in : TaskStatus → List TaskStatus → Bool
status_in s = any (status_eq s)

pub record TaskError : Type 0 where
  pub code : String
  pub message : String
  pub details : Option Json

pub record TaskSelect : Type 0 where
  pub id : String
  pub idempotency_key : Option String
  pub status : TaskStatus
  pub type : String
  pub payload : Json
  pub executor_url : String
  pub callback_token : Option String
  pub webhook_url : Option String
  pub cancel_url : Option String
  pub result : Option Json
  pub error : Option TaskError
  pub progress : ℕ
  pub timeout_seconds : ℕ
  pub processing_started_at : Option Time
  pub expires_at : Option Time
  pub completed_at : Option Time
  pub created_at : Time
  pub updated_at : Time

-- The columns that the service gives a new row; the others take their defaults.
pub record TaskInsert : Type 0 where
  pub idempotency_key : Option String
  pub type : String
  pub payload : Option Json
  pub executor_url : String
  pub callback_token : Option String
  pub webhook_url : Option String
  pub cancel_url : Option String
  pub timeout_seconds : ℕ
  pub expires_at : Option Time

-- The CHECK constraint `tasks_valid_state_data`.
unfoldable pub tasks_valid_state_data : TaskSelect → Bool
tasks_valid_state_data t =
    (status_eq status pending && (is_none processing_started_at && is_none completed_at))
    || ((status_eq status processing && (is_some processing_started_at && is_none completed_at))
        || ((status_in status (completed ∷ failed ∷ [])
              && (is_some processing_started_at && is_some completed_at))
            || (status_eq status cancelled && is_some completed_at)))
  where
    open t use {status, processing_started_at, completed_at}

-- `payload` is NOT NULL, with the default {}.
abbrev pub payload_or_default : Option Json → Json
payload_or_default none = "{}"
payload_or_default (some payload) = payload

-- The default values of the columns that an INSERT leaves out.
abbrev pub default_row : String → Time → TaskInsert → TaskSelect
default_row id now v = record {
  id = id;
  idempotency_key = v.idempotency_key;
  status = pending;
  type = v.type;
  payload = payload_or_default v.payload;
  executor_url = v.executor_url;
  callback_token = v.callback_token;
  webhook_url = v.webhook_url;
  cancel_url = v.cancel_url;
  result = none;
  error = none;
  progress = 0;
  timeout_seconds = v.timeout_seconds;
  processing_started_at = none;
  expires_at = v.expires_at;
  completed_at = none;
  created_at = now;
  updated_at = now;
}

-- The unique index `tasks_idempotency_key_idx`, for a new row with key `key`.
abbrev pub has_idempotency_key : String → TaskSelect → Bool
has_idempotency_key key t = elim t.idempotency_key [ none ↦ false | some k ↦ k == key ]

unfoldable pub idempotency_key_taken : Option String → List TaskSelect → Bool
idempotency_key_taken none ts = false
idempotency_key_taken (some key) ts = any (has_idempotency_key key) ts

abbrev pub is_terminal : TaskStatus → Bool
is_terminal s = status_in s (completed ∷ failed ∷ cancelled ∷ [])

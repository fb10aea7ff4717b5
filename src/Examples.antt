-- ===== src/Examples.antt =====
-- Sample data for the tests, and the theorems at concrete inputs.
mod Dispatching
mod Retrying
mod Results
mod Logging
mod Streaming
mod Creating
mod Guarding
mod Maintaining
mod Cancelling
mod Answering
mod Nodes
mod Configuring
mod Pooling
mod Resuming
mod Running
mod Parsing
use async_long_request_proxy.Prelude.{ℕ, String, ◌≡◌, refl, Option, none, some, List, [], ◌∷◌}
use async_long_request_proxy.Tasks.Schema.{
  Time, TaskStatus, processing, TaskSelect, TaskInsert, tasks_valid_state_data, default_row,
}
use async_long_request_proxy.Tasks.Repository.{no_change, set_status}
use async_long_request_proxy.Tasks.Repository.Integrity.{IsSound}
use async_long_request_proxy.Delivery.Schema.{Db}
use async_long_request_proxy.Delivery.Events.Log.{seqs}
use async_long_request_proxy.World.{World}

abbrev pub render : TaskInsert
render = record {
  idempotency_key = some "order-7";
  type = "render-pdf";
  payload = some "{\"page\":1}";
  executor_url = "https://executor/run";
  callback_token = some "secret";
  webhook_url = some "https://client/hook";
  cancel_url = some "https://executor/cancel";
  timeout_seconds = 300;
  expires_at = some 301000;
}

abbrev pub pending_row : TaskSelect
pending_row = default_row "t1" 1000 render

abbrev pub processing_row : TaskSelect
processing_row =
    set_status processing
      (record no_change {
        processing_started_at = some (some 2000);
        expires_at = some (some 302000);
      })
      2000 pending_row

abbrev pub with_row : TaskSelect → Db
with_row t = record { tasks = t ∷ []; events = [] }

abbrev pub world_of : Db → World
world_of db = record { db = db; jobs = []; published = []; sent = [] }

pub with_pending-IsSound : IsSound (with_row pending_row)
unfolding tasks_valid_state_data seqs
with_pending-IsSound = record {
  valid = (refl, tt);
  keys = (tt, tt);
  idempotency_keys = (tt, tt);
  log = λ t. refl;
}

pub with_processing-IsSound : IsSound (with_row processing_row)
unfolding tasks_valid_state_data seqs
with_processing-IsSound = record {
  valid = (refl, tt);
  keys = (tt, tt);
  idempotency_keys = (tt, tt);
  log = λ t. refl;
}

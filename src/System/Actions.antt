-- ===== src/System/Actions.antt =====
-- The calls that change the state of the program, one after another: what src/main.ts serves over
-- HTTP, and what src/worker.ts consumes from the queues and runs by schedule.
pub mod Lasting
use async_long_request_proxy.Prelude.{ℕ, String, List, [], ◌∷◌}
use async_long_request_proxy.Result.{App, Outcome}
use async_long_request_proxy.Tasks.Schema.{Time}
use async_long_request_proxy.Tasks.Service.{
  CreateTaskDto, Creating, Site, create, Cancelling, cancel_by_user,
}
use async_long_request_proxy.Idempotency.{Redis}
use async_long_request_proxy.HttpRetry.{Reply}
use async_long_request_proxy.World.{World}
use async_long_request_proxy.Executor.Dispatch.{Run, process}
use async_long_request_proxy.Executor.Service.{SubmitResultDto, UpdateProgressDto, Calls}
use async_long_request_proxy.Executor.Guard.{CallbackRequest, post_result, patch_progress}
use async_long_request_proxy.Executor.Cancel.{process_cancel}
use async_long_request_proxy.Delivery.Webhook.{process_webhook}
use async_long_request_proxy.Maintenance.Sweeper.{Round, sweep}
use async_long_request_proxy.Maintenance.DataRetention.{process_retention}
use async_long_request_proxy.Config.{AppConfig}

-- Each with its surroundings: clocks, UUIDs, replies, and the fate of each awaited call.
pub data Action : Type 0 where
  creates : Creating → CreateTaskDto → (base_url : String) → Action
  cancels : Cancelling → (id : String) → Action
  posts_result : Calls → CallbackRequest → SubmitResultDto → Action
  patches_progress : Calls → CallbackRequest → UpdateProgressDto → Action
  dispatches : Run → (id : String) → (timeout_seconds : ℕ) → Action
  notifies : (ℕ → Reply) → (ℕ → ℕ) → Outcome → (id : String) → Action
  calls_webhook : (ℕ → Reply) → (ℕ → ℕ) → Outcome → (id : String) → Action
  sweeps : (ℕ → Round) → (fuel : ℕ) → Action
  retains : (fuel : ℕ) → Time → AppConfig → Action

module _ (R : Redis) (bytes : String → List ℕ) where
  abbrev pub in_world : (World → World) → Site R → Site R
  in_world f s = record s { world = f s.world }

  unfoldable pub act : Action → Site R → Site R
  act (creates c dto base_url) s = (create R c dto base_url s).1
  act (cancels c id) s = in_world (λ w. (cancel_by_user c id w).1) s
  act (posts_result c req dto) s = in_world (λ w. (post_result bytes c req dto w).1) s
  act (patches_progress c req dto) s = in_world (λ w. (patch_progress bytes c req dto w).1) s
  act (dispatches r id timeout_seconds) s = in_world (λ w. (process r id timeout_seconds w).1) s
  act (notifies reply jitter find id) s =
      in_world (λ w. (process_cancel reply jitter find id w).1) s
  act (calls_webhook reply jitter find id) s =
      in_world (λ w. (process_webhook reply jitter find id w).1) s
  act (sweeps rounds fuel) s = in_world (λ w. (sweep rounds fuel 0 0 w).1) s
  act (retains fuel now config) s =
      in_world (λ w. record w { db = (process_retention fuel now config w.db).1 }) s

  unfoldable pub act_all : List Action → Site R → Site R
  act_all [] s = s
  act_all (a ∷ actions) s = act_all actions (act a s)

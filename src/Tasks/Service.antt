-- ===== src/Tasks/Service.antt =====
-- src/modules/tasks/tasks.service.ts: creation with idempotency, the status, and cancellation.
pub mod Creation
pub mod Cancellation
use Prim.Native.String.{◌++◌}
use async_long_request_proxy.Prelude.{
  ℕ, ◌+◌, ◌*◌, String, Bool, Option, none, some, List, [], ◌∷◌, truthy,
}
use async_long_request_proxy.Result.{
  Error, conflict, not_found, Result, ok, err, App, pure, raise, ◌>>=◌, ◌>>◌, try◌catch◌, quietly,
  Outcome, perform,
}
use async_long_request_proxy.Tasks.Schema.{Json, Time, TaskStatus, TaskSelect, TaskInsert}
use async_long_request_proxy.Tasks.Repository.{insert, delete_by_id, find_by_id, cancel_task}
use async_long_request_proxy.Delivery.Schema.{TaskEventSelect}
use async_long_request_proxy.Idempotency.{
  Redis, OccupySlotResult, acquired, pending, duplicate, occupy_slot, commit_result, release_slot,
}
use async_long_request_proxy.Queue.{QueueJob, dispatch, cancel, JobOptions, no_options, enqueue}
use async_long_request_proxy.World.{World, on_db, on_jobs, publish, read_task}

abbrev pub idempotency_ttl_seconds : ℕ
idempotency_ttl_seconds = 86400

-- tasks.dto.ts: the fields of a request, once validated.
pub record CreateTaskDto : Type 0 where
  pub type : String
  pub payload : Option Json
  pub executor_url : String
  pub cancel_url : Option String
  pub webhook_url : Option String
  pub timeout_seconds : ℕ
  pub idempotency_key : Option String

pub record TaskCreatedResponseDto : Type 0 where
  pub task_id : String
  pub status_url : String
  pub stream_url : String

abbrev pub build_response : String → String → TaskCreatedResponseDto
build_response task_id base_url = record {
  task_id = task_id;
  status_url = base_url ++ ("/tasks/" ++ task_id);
  stream_url = base_url ++ ("/tasks/" ++ (task_id ++ "/stream"));
}

-- What surrounds a creation: the clock, the UUIDs, and the fate of the calls in their order.
pub record Creating : Type 0 where
  pub now : Time
  pub task_id : String
  pub callback_token : String
  pub occupy : Outcome
  pub insert : Outcome
  pub enqueue : Outcome
  pub delete : Outcome
  pub release : Outcome
  pub commit : Outcome

abbrev pub new_task : Creating → CreateTaskDto → TaskInsert
new_task c dto = record {
  idempotency_key = dto.idempotency_key;
  type = dto.type;
  payload = dto.payload;
  executor_url = dto.executor_url;
  callback_token = some c.callback_token;
  webhook_url = dto.webhook_url;
  cancel_url = dto.cancel_url;
  timeout_seconds = dto.timeout_seconds;
  expires_at = some (c.now + dto.timeout_seconds * 1000);
}

-- attempts: 1, so that BullMQ never runs a dispatch twice.
abbrev pub dispatch_options : JobOptions
dispatch_options = record no_options { attempts = some 1 }

module _ (R : Redis) where
  -- The service's state: the Redis server that holds the slots, and the rest.
  pub record Site : Type 0 where
    pub store : R.Store
    pub world : World

  abbrev pub on_store : {A : Type 0} → App R.Store A → App Site A
  on_store m s = let (r, store') = m s.store in (r, record s { store = store' })

  abbrev pub on_world : {A : Type 0} → App World A → App Site A
  on_world m s = let (r, world') = m s.world in (r, record s { world = world' })

  module _ (c : Creating) (dto : CreateTaskDto) (base_url : String) where
    abbrev pub release : Option String → App Site Unit
    release none = pure tt
    release (some key) = quietly (perform c.release (on_store (release_slot R key)))

    abbrev pub commit : Option String → String → App Site Unit
    commit none task_id = pure tt
    commit (some key) task_id = quietly (perform c.commit (on_store (commit_result R key task_id)))

    unfoldable pub create_task : Option String → App Site TaskCreatedResponseDto
    create_task key = do
      task ←
          try◌catch◌ (perform c.insert (on_world (on_db (insert c.task_id c.now (new_task c dto)))))
            (λ error. release key >> raise error)
      try◌catch◌
          (perform c.enqueue
            (on_world (on_jobs (enqueue (dispatch task.id task.timeout_seconds) dispatch_options))))
          (λ error.
            quietly (perform c.delete (on_world (on_db (delete_by_id task.id))))
            >> release key
            >> raise error)
      commit key task.id
      pure (build_response task.id base_url)

    abbrev pub on_slot : String → OccupySlotResult → App Site TaskCreatedResponseDto
    on_slot key acquired = create_task (some key)
    on_slot key pending = raise conflict
    on_slot key (duplicate task_id) = pure (build_response task_id base_url)

    abbrev pub with_slot : Option String → App Site TaskCreatedResponseDto
    with_slot none = create_task none
    with_slot (some key) =
        perform c.occupy (on_store (occupy_slot R key idempotency_ttl_seconds)) >>= on_slot key

    unfoldable pub create : App Site TaskCreatedResponseDto
    create = with_slot (truthy dto.idempotency_key)

unfoldable pub get_status : String → App World TaskSelect
get_status id w = elim (find_by_id id w.db) [ none ↦ (err not_found, w) | some task ↦ (ok task, w) ]

-- What surrounds a cancellation.
pub record Cancelling : Type 0 where
  pub now : Time
  pub event_id : String
  pub update : Outcome
  pub find : Outcome
  pub publish : Outcome
  pub enqueue : Outcome

-- `if (task.cancelUrl)`
abbrev pub enqueue_cancel : Outcome → String → Option String → App World Unit
enqueue_cancel o id none = pure tt
enqueue_cancel o id (some url) = perform o (on_jobs (enqueue (cancel id) no_options))

abbrev pub refusal : Option TaskSelect → App World Unit
refusal none = raise not_found
refusal (some task) = raise conflict

abbrev pub announce_cancelled :
    Cancelling → String → Option (TaskSelect × TaskEventSelect) → App World Unit
announce_cancelled c id none = perform c.find (read_task id) >>= refusal
announce_cancelled c id (some (task, event)) = do
  perform c.publish (publish id event)
  enqueue_cancel c.enqueue id (truthy task.cancel_url)

unfoldable pub cancel_by_user : Cancelling → String → App World Unit
cancel_by_user c id =
    perform c.update (on_db (cancel_task c.event_id c.now id)) >>= announce_cancelled c id

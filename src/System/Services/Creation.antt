-- ===== src/System/Services/Creation.antt =====
-- The creation of a task, the one call that inserts rows.
use mathlib.Core.Path.{subst}
use async_long_request_proxy.Prelude.{
  ◌≡◌, sym, ap, String, Option, none, some, truthy, any, ◌||◌, Bool-cases, inl, inr,
}
use async_long_request_proxy.Result.{
  connection_lost, check_violation, unique_violation, Result, ok, err, handle, Outcome, replied,
  refused, reply_lost, Error, App, pure, raise, ◌>>=◌, ◌>>◌, try◌catch◌, quietly, perform,
}
use async_long_request_proxy.Result.Preserves.{
  Preserves, returning_rule, bind_rule, try_rule, perform_rule, quietly_rule,
}
use async_long_request_proxy.Tasks.Schema.{
  TaskSelect, default_row, idempotency_key_taken, tasks_valid_state_data,
}
use async_long_request_proxy.Tasks.Repository.{has_id, insert, delete_by_id}
use async_long_request_proxy.Delivery.Schema.{Db}
use async_long_request_proxy.Queue.{dispatch, enqueue}
use async_long_request_proxy.Idempotency.{
  Redis, OccupySlotResult, acquired, pending, duplicate, occupy_slot, commit_result, release_slot,
}
use async_long_request_proxy.World.{on_db, on_jobs}
use async_long_request_proxy.Tasks.Service.{
  CreateTaskDto, idempotency_ttl_seconds, build_response, Creating, new_task, dispatch_options,
  Site, on_store, on_world, release, commit, create_task, on_slot, with_slot, create,
}
use async_long_request_proxy.System.Statement.{
  Statement, insert_row, delete_row, exec, Reaches, after,
}
use async_long_request_proxy.System.Services.{IsOpen}

module _ (Allowed : Statement → Type 0) (open_to : IsOpen Allowed) (from : Db) (R : Redis)
    (c : Creating) (dto : CreateTaskDto) (base_url : String)
    (inserts : Allowed (insert_row c.task_id c.now (new_task c dto)))
    (deletes : Allowed (delete_row c.task_id)) where
  abbrev P : Site R → Type 0
  P s = Reaches Allowed from s.world.db

  insert_rule :
      Preserves P (perform c.insert (on_world R (on_db (insert c.task_id c.now (new_task c dto)))))
  unfolding exec
  insert_rule =
      perform_rule P c.insert (on_world R (on_db (insert c.task_id c.now (new_task c dto))))
        (λ s h. after (insert_row c.task_id c.now (new_task c dto)) inserts h)

  delete_rule :
      (id : String)
      → id ≡ c.task_id
      → Preserves P (quietly (perform c.delete (on_world R (on_db (delete_by_id id)))))
  unfolding exec
  delete_rule id own = quietly_rule P (perform c.delete (on_world R (on_db (delete_by_id id)))) (
      perform_rule P c.delete (on_world R (on_db (delete_by_id id)))
        (λ s h. after (delete_row id) (subst (λ i. Allowed (delete_row i)) (sym own) deletes) h))

  release-P : (key : Option String) → Preserves P (release R c dto base_url key)
  release-P none = λ s h. h
  release-P (some key) =
      let slot = perform c.release (on_store R (release_slot R key)) in
      quietly_rule P slot (perform_rule P c.release (on_store R (release_slot R key)) (λ s h. h))

  undo :
      (key : Option String) (e : Error)
      → Preserves P (release R c dto base_url key >> raise {A = TaskSelect} e)
  undo key e =
      bind_rule P (release R c dto base_url key) (λ _. raise {A = TaskSelect} e) (release-P key)
        (λ _ s h. h)

  commit-P : (key : Option String) (id : String) → Preserves P (commit R c dto base_url key id)
  commit-P none id = λ s h. h
  commit-P (some key) id =
      let slot = perform c.commit (on_store R (commit_result R key id)) in
      quietly_rule P slot (perform_rule P c.commit (on_store R (commit_result R key id)) (λ s h. h))

  -- The handler of a failed INSERT throws.
  handled :
      (key : Option String) (r : Result TaskSelect) (s : Site R) (task : TaskSelect)
      → (r ≡ ok task → task.id ≡ c.task_id)
      → (handle r (λ e. release R c dto base_url key >> raise e) s).0 ≡ ok task
      → task.id ≡ c.task_id
  handled key (ok u) s task k h = k h
  handled none (err e) s task k h = cc
  handled (some key) (err e) s task k h = cc

  inserted_id :
      (task : TaskSelect) (s : Site R)
      → (on_world R (on_db (insert c.task_id c.now (new_task c dto))) s).0 ≡ ok task
      → task.id ≡ c.task_id
  unfolding insert
  inserted_id task s h =
      let row = default_row c.task_id c.now (new_task c dto) in
      elim (Bool-cases (
        any (has_id c.task_id) s.world.db.tasks
        || idempotency_key_taken (new_task c dto).idempotency_key s.world.db.tasks)) [
          | inl taken ↦ let wrong : err unique_violation ≡ ok task = rw taken at h in cc
          | inr free ↦ elim (Bool-cases (tasks_valid_state_data row)) [
            | inl valid ↦
                let same : ok row ≡ ok task = rw (free, valid) at h in
                let equal : row ≡ task = cc in sym (ap (λ t. t.id) equal)
            | inr invalid ↦
                let wrong : err check_violation ≡ ok task = rw (free, invalid) at h in cc
          ]
        ]

  -- What the INSERT returns, if it returns at all, is the new row.
  returned_id :
      (key : Option String) (o : Outcome) (task : TaskSelect) (s : Site R)
      → (try◌catch◌
          (perform o (on_world R (on_db (insert c.task_id c.now (new_task c dto)))))
          (λ e. release R c dto base_url key >> raise e)
          s).0
        ≡ ok task
      → task.id ≡ c.task_id
  returned_id key replied task s h =
      handled key (on_world R (on_db (insert c.task_id c.now (new_task c dto))) s).0 _ task
        (inserted_id task s) h
  returned_id key refused task s h = handled key (err connection_lost) _ task (λ wrong. cc) h
  returned_id key reply_lost task s h = handled key (err connection_lost) _ task (λ wrong. cc) h

  create_task-P : (key : Option String) → Preserves P (create_task R c dto base_url key)
  unfolding create_task
  create_task-P key =
      let inserted =
        perform c.insert (on_world R (on_db (insert c.task_id c.now (new_task c dto)))) in
      returning_rule P (λ task. task.id ≡ c.task_id)
        (try◌catch◌ inserted (λ e. release R c dto base_url key >> raise e))
        (λ task. enqueued task >>= λ _.
          commit R c dto base_url key task.id >>= λ _. pure (build_response task.id base_url))
        (try_rule P inserted (λ e. release R c dto base_url key >> raise e) insert_rule (undo key))
        (returned_id key c.insert)
        (λ task own.
          bind_rule P (enqueued task)
            (λ _.
              commit R c dto base_url key task.id >>= λ _. pure (build_response task.id base_url))
            (try_rule P (added task) (deleted task) (added-P task) (λ e.
              bind_rule P
                (quietly (perform c.delete (on_world R (on_db (delete_by_id task.id))))
                  >> release R c dto base_url key)
                (λ _. raise {A = Unit {0}} e)
                (bind_rule P
                  (quietly (perform c.delete (on_world R (on_db (delete_by_id task.id)))))
                  (λ _. release R c dto base_url key) (delete_rule task.id own)
                  (λ _. release-P key))
                (λ _ s h. h)))
            (λ _.
              bind_rule P (commit R c dto base_url key task.id)
                (λ _. pure (build_response task.id base_url)) (commit-P key task.id) (λ _ s h. h)))
    where
      added : TaskSelect → App (Site R) (Unit {0})
      added task =
          perform c.enqueue (
            on_world R (on_jobs (enqueue (dispatch task.id task.timeout_seconds) dispatch_options)))

      deleted : TaskSelect → Error → App (Site R) (Unit {0})
      deleted task e =
          quietly (perform c.delete (on_world R (on_db (delete_by_id task.id))))
          >> release R c dto base_url key
          >> raise e

      enqueued : TaskSelect → App (Site R) (Unit {0})
      enqueued task = try◌catch◌ (added task) (deleted task)

      added-P : (task : TaskSelect) → Preserves P (added task)
      added-P task =
          perform_rule P c.enqueue
            (on_world R
              (on_jobs (enqueue (dispatch task.id task.timeout_seconds) dispatch_options)))
            (λ s h. h)

  on_slot-P : (key : String) (r : OccupySlotResult) → Preserves P (on_slot R c dto base_url key r)
  on_slot-P key acquired = create_task-P (some key)
  on_slot-P key pending = λ s h. h
  on_slot-P key (duplicate id) = λ s h. h

  with_slot-P : (key : Option String) → Preserves P (with_slot R c dto base_url key)
  with_slot-P none = create_task-P none
  with_slot-P (some key) =
      let slot = on_store R (occupy_slot R key idempotency_ttl_seconds) in
      bind_rule P (perform c.occupy slot) (on_slot R c dto base_url key)
        (perform_rule P c.occupy slot (λ s h. h)) (on_slot-P key)

  pub create-Reached : Preserves P (create R c dto base_url)
  unfolding create
  create-Reached = with_slot-P (truthy dto.idempotency_key)

-- ===== src/System/Actions/Lasting.antt =====
-- What lasts, whatever calls are made in whatever order, and whichever of their awaited calls fail.
use async_long_request_proxy.Prelude.{
  ℕ, ◌≡◌, String, true, false, List, [], ◌∷◌, ◌==◌, All, Bool, refl, any, ltb, ◌||◌, Bool-cases,
  inl, inr,
}
use async_long_request_proxy.Tasks.Schema.{Time, is_terminal}
use async_long_request_proxy.Tasks.Repository.{has_id}
use async_long_request_proxy.Table.Keyed.{any-false}
use async_long_request_proxy.Tasks.Repository.Integrity.{IsSound}
use async_long_request_proxy.Tasks.Service.{new_task, Site}
use async_long_request_proxy.Delivery.Schema.{Db}
use async_long_request_proxy.Idempotency.{Redis}
use async_long_request_proxy.System.Statement.{
  Statement, insert_row, delete_row, delete_old_rows, Spares, Keeps, Reaches, start,
}
use async_long_request_proxy.System.Statement.Sound.{Reaches-IsSound}
use async_long_request_proxy.System.Statement.Ended.{Reaches-IsEnded}
use async_long_request_proxy.System.Statement.Ended.Rows.{Ending, IsEnded}
use async_long_request_proxy.System.Statement.Ended.Standing.{Reaches-Stands}
use async_long_request_proxy.System.Services.{IsOpen}
use async_long_request_proxy.System.Services.Workers.{
  process-Reached, process_webhook-Reached, process_cancel-Reached,
}
use async_long_request_proxy.System.Services.Requests.{
  post_result-Reached, patch_progress-Reached, cancel_by_user-Reached,
}
use async_long_request_proxy.System.Services.Maintaining.{
  cutoff_of, sweep-Reached, process_retention-Reached,
}
use async_long_request_proxy.System.Services.Creation.{create-Reached}
use async_long_request_proxy.System.Actions.{
  Action, creates, cancels, posts_result, patches_progress, dispatches, notifies, calls_webhook,
  sweeps, retains, act, act_all,
}

-- The INSERT and the DELETEs of the action, if it has any, are allowed.
abbrev Permits : (Statement → Type 0) → Action → Type 0
Permits Allowed (creates c dto base_url) =
    Allowed (insert_row c.task_id c.now (new_task c dto)) × Allowed (delete_row c.task_id)
Permits Allowed (retains fuel now config) = Allowed (delete_old_rows (cutoff_of now config))
Permits Allowed _ = Unit

-- A run of retention that deletes what is from before a time after `created`.
abbrev pub deletes_from : Time → Action → Bool
deletes_from created (retains fuel now config) = ltb created (cutoff_of now config)
deletes_from created _ = false

||-right : (b : Bool) → (b || true) ≡ true
||-right true = refl
||-right false = refl

module _ (R : Redis) (bytes : String → List ℕ) where
  module _ (Allowed : Statement → Type 0) (open_to : IsOpen Allowed) (from : Db) where
    act-Reaches :
        (a : Action) (s : Site R)
        → Permits Allowed a
        → Reaches Allowed from s.world.db
        → Reaches Allowed from (act R bytes a s).world.db
    unfolding act
    act-Reaches (creates c dto base_url) s i h =
        create-Reached Allowed open_to from R c dto base_url i.0 i.1 s h
    act-Reaches (cancels c id) s i h = cancel_by_user-Reached Allowed open_to from c id s.world h
    act-Reaches (posts_result c req dto) s i h =
        post_result-Reached Allowed open_to from bytes c req dto s.world h
    act-Reaches (patches_progress c req dto) s i h =
        patch_progress-Reached Allowed open_to from bytes c req dto s.world h
    act-Reaches (dispatches r id timeout_seconds) s i h =
        process-Reached Allowed open_to from r id timeout_seconds s.world h
    act-Reaches (notifies reply jitter find id) s i h =
        process_cancel-Reached Allowed open_to from reply jitter find id s.world h
    act-Reaches (calls_webhook reply jitter find id) s i h =
        process_webhook-Reached Allowed open_to from reply jitter find id s.world h
    act-Reaches (sweeps rounds fuel) s i h =
        sweep-Reached Allowed open_to from rounds fuel 0 0 s.world h
    act-Reaches (retains fuel now config) s i h =
        process_retention-Reached Allowed open_to from fuel now config i s.world.db h

    act_all-Reaches :
        (actions : List Action) (s : Site R)
        → All (Permits Allowed) actions
        → Reaches Allowed from s.world.db
        → Reaches Allowed from (act_all R bytes actions s).world.db
    unfolding act_all
    act_all-Reaches [] s i h = h
    act_all-Reaches (a ∷ actions) s i h =
        act_all-Reaches actions (act R bytes a s) i.1 (act-Reaches a s i.0 h)

  All-permitted : (actions : List Action) → All (Permits (λ s. Unit {0})) actions
  All-permitted [] = tt
  All-permitted (creates c dto base_url ∷ actions) = ((tt, tt), All-permitted actions)
  All-permitted (a ∷ actions) = (tt, All-permitted actions)

  -- Whatever calls of the services and jobs of the workers are run, in whatever order, with
  -- whatever failures, the tables keep their constraints: each row satisfies the CHECK constraint,
  -- ids and idempotency keys differ, and the events of each task are numbered from 1 without a
  -- gap.
  pub act_all-IsSound :
      (actions : List Action) (s : Site R)
      → IsSound s.world.db
      → IsSound (act_all R bytes actions s).world.db
  act_all-IsSound actions s h =
      Reaches-IsSound
        (act_all-Reaches (λ s. Unit {0}) (λ s _. tt) s.world.db actions s (All-permitted actions)
          start)
        h

  -- The action creates no row with the id.
  abbrev pub CreatesOther : String → Action → Type 0
  CreatesOther id (creates c dto base_url) = (c.task_id == id) ≡ false
  CreatesOther id _ = Unit

  Spares-open : (id : String) → IsOpen (Spares id)
  Spares-open id (insert_row i now values) h = cc
  Spares-open id _ h = tt

  Keeps-open : (id : String) (created : Time) → IsOpen (Keeps id created)
  Keeps-open id created (insert_row i now values) h = cc
  Keeps-open id created (delete_row i) h = cc
  Keeps-open id created (delete_old_rows cutoff) h = cc
  Keeps-open id created _ h = tt

  spared :
      (id : String) (actions : List Action)
      → All (CreatesOther id) actions
      → All (Permits (Spares id)) actions
  spared id [] h = tt
  spared id (creates c dto base_url ∷ actions) h = ((h.0, tt), spared id actions h.1)
  spared id (a ∷ actions) h = (tt, spared id actions h.1)

  kept :
      (id : String) (created : Time) (actions : List Action)
      → All (CreatesOther id) actions
      → All (λ a. deletes_from created a ≡ false) actions
      → All (Permits (Keeps id created)) actions
  kept id created [] h k = tt
  kept id created (creates c dto base_url ∷ actions) h k =
      ((h.0, h.0), kept id created actions h.1 k.1)
  kept id created (retains fuel now config ∷ actions) h k = (k.0, kept id created actions h.1 k.1)
  kept id created (a ∷ actions) h k = (tt, kept id created actions h.1 k.1)

  -- Once a task has ended, as completed, failed or cancelled, no calls of the services and no jobs
  -- of the workers change its status, its result, its error, the time of its completion or that of
  -- its creation, in whatever order and with whatever failures: its row still has them or has been
  -- deleted. If its row was there, then it still is, unless one of the calls is a run of data
  -- retention for rows from before a time that is after the task's creation: no other call deletes
  -- it. The UUIDs of new tasks are not its id.
  pub act_all-IsEnded :
      (id : String) (e : Ending) (actions : List Action) (s : Site R)
      → is_terminal e.status ≡ true
      → All (CreatesOther id) actions
      → IsEnded id e s.world.db
      → any (has_id id) s.world.db.tasks ≡ true
      → let db = (act_all R bytes actions s).world.db in
        IsEnded id e db
        × ((any (has_id id) db.tasks || any (deletes_from e.created_at) actions) ≡ true)
  act_all-IsEnded id e actions s terminal others h there =
      let ended =
        Reaches-IsEnded id e terminal
          (act_all-Reaches (Spares id) (Spares-open id) s.world.db actions s
            (spared id actions others) start)
          h in
      let db = (act_all R bytes actions s).world.db in
      elim (Bool-cases (any (deletes_from e.created_at) actions)) [
        | inl deletes ↦ (ended, rw deletes (||-right (any (has_id id) db.tasks)))
        | inr none_deletes ↦
            let stands =
              Reaches-Stands id e terminal
                (act_all-Reaches (Keeps id e.created_at) (Keeps-open id e.created_at) s.world.db
                  actions s
                  (kept id e.created_at actions others
                    (any-false (deletes_from e.created_at) actions none_deletes))
                  start)
                h there in
            (ended, rw (stands.1) refl)
      ]

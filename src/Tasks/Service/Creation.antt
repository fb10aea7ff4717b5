-- ===== src/Tasks/Service/Creation.antt =====
-- Creation with an idempotency key: one task for a key, and nothing left behind by a failure.
use async_long_request_proxy.Prelude.{
  String, ◌≡◌, ◌≢◌, refl, true, false, Option, none, some, List, [], ◌∷◌, ◌++◌, ◌==◌, eq_iff, any,
  arith, truthy,
}
use async_long_request_proxy.Result.{
  conflict, connection_lost, unique_violation, ok, err, replied, refused,
}
use async_long_request_proxy.Table.{delete}
use async_long_request_proxy.Tasks.Schema.{
  TaskSelect, default_row, tasks_valid_state_data, idempotency_key_taken,
}
use async_long_request_proxy.Delivery.Schema.{Db}
use async_long_request_proxy.Tasks.Repository.{has_id, insert, delete_by_id}
use async_long_request_proxy.Idempotency.{
  Redis, RedisLaws, pending_sentinel, redis_key, commit_result, release_slot,
}
use async_long_request_proxy.Idempotency.Slots.{
  slot, occupy_slot_free, occupy_slot_held, occupy_slot_committed,
}
use async_long_request_proxy.Queue.{dispatch, added}
use async_long_request_proxy.World.{World}
use async_long_request_proxy.Tasks.Service.{
  CreateTaskDto, build_response, Creating, new_task, dispatch_options, idempotency_ttl_seconds,
  Site, create_task, create,
}

-- The row of the new task, and the job that dispatches it.
abbrev pub created_row : Creating → CreateTaskDto → TaskSelect
created_row c dto = default_row c.task_id c.now (new_task c dto)

abbrev pub created_world : Creating → CreateTaskDto → World → World
created_world c dto w = record w {
  db = record (w.db) { tasks = w.db.tasks ++ created_row c dto ∷ [] };
  jobs = w.jobs ++ added (dispatch c.task_id dto.timeout_seconds) dispatch_options ∷ [];
}

truthy-filled : (o : Option String) (k : String) → o ≡ some k → k ≢ "" → truthy o ≡ some k
truthy-filled o k e filled =
    let other : (k == "") ≡ false = ground (arith, eq_iff k "", filled) in rw (e, other) refl

insert_lem :
    (c : Creating) (dto : CreateTaskDto) (db : Db)
    → any (has_id c.task_id) db.tasks ≡ false
    → idempotency_key_taken dto.idempotency_key db.tasks ≡ false
    → insert c.task_id c.now (new_task c dto) db
      ≡ (ok (created_row c dto), record db { tasks = db.tasks ++ created_row c dto ∷ [] })
unfolding insert tasks_valid_state_data
insert_lem c dto db fresh free = rw (fresh, free) refl

insert_refused :
    (c : Creating) (dto : CreateTaskDto) (db : Db)
    → idempotency_key_taken dto.idempotency_key db.tasks ≡ true
    → insert c.task_id c.now (new_task c dto) db ≡ (err unique_violation, db)
unfolding insert
insert_refused c dto db taken = rw taken (ground arith)

delete-inserted :
    (id : String) (ts : List TaskSelect) (t : TaskSelect)
    → any (has_id id) ts ≡ false
    → t.id ≡ id
    → delete (has_id id) (ts ++ t ∷ []) ≡ ts
unfolding delete
delete-inserted id [] t fresh same = ground (arith, eq_iff t.id id)
delete-inserted id (u ∷ us) t fresh same = ground (arith, delete-inserted id us t)

module _ (R : Redis) (laws : RedisLaws R) (c : Creating) (dto : CreateTaskDto)
    (base_url key : String) (keyed : dto.idempotency_key ≡ some key) (filled : key ≢ "")
    (answered : c.occupy ≡ replied) where
  abbrev slot_of : Site R → Option String
  slot_of s = slot R laws key s.store

  -- For a key that is not empty, while another request is creating the task, or if one has died
  -- doing so, the answer is a conflict, and nothing changes; the call on the slot is answered.
  pub create_conflict :
      (s : Site R)
      → slot R laws key s.store ≡ some pending_sentinel
      → create R c dto base_url s ≡ (err conflict, s)
  unfolding create
  create_conflict s held =
      rw
        (
          truthy-filled dto.idempotency_key key keyed filled,
          answered,
          occupy_slot_held R laws key idempotency_ttl_seconds s.store held,
        )
        refl

  -- Once a task has been created for the key, the answer is that task's, and nothing changes.
  pub create_duplicate :
      (s : Site R) (task_id : String)
      → slot R laws key s.store ≡ some task_id
      → task_id ≢ ""
      → task_id ≢ pending_sentinel
      → create R c dto base_url s ≡ (ok (build_response task_id base_url), s)
  unfolding create
  create_duplicate s task_id held named other =
      rw
        (
          truthy-filled dto.idempotency_key key keyed filled,
          answered,
          occupy_slot_committed R laws key idempotency_ttl_seconds s.store task_id held named other,
        )
        refl

  -- A key that is not empty and that a row still has, although its slot is free again, is refused
  -- by the unique index: the caller gets that error, no task is created, and the slot is free
  -- again. The calls on the slot and the INSERT are answered.
  pub create_key_reused :
      (s : Site R)
      → slot R laws key s.store ≡ none
      → idempotency_key_taken dto.idempotency_key s.world.db.tasks ≡ true
      → c.insert ≡ replied
      → c.release ≡ replied
      → ((create R c dto base_url s).0 ≡ err unique_violation)
        × ((create R c dto base_url s).1.world ≡ s.world)
        × (slot R laws key (create R c dto base_url s).1.store ≡ none)
  unfolding create create_task release_slot
  create_key_reused s free taken inserted released =
      let (first, held) = occupy_slot_free R laws key idempotency_ttl_seconds s.store free in
      rw
        (
          truthy-filled dto.idempotency_key key keyed filled,
          answered,
          first,
          inserted,
          insert_refused c dto s.world.db taken,
          released,
        )
        (refl, refl, laws.get_del (redis_key key) _)

  module _ (s : Site R) (free : slot R laws key s.store ≡ none)
      (fresh : any (has_id c.task_id) s.world.db.tasks ≡ false)
      (unused : idempotency_key_taken dto.idempotency_key s.world.db.tasks ≡ false)
      (inserted : c.insert ≡ replied) where
    -- With a free slot, a fresh id, a key that is not empty and that no row has, and every call
    -- answered: the task is added as PENDING, one dispatch job with a single attempt is queued,
    -- the slot holds the task's id, and nothing else changes.
    pub create_fresh :
        c.enqueue ≡ replied
        → c.commit ≡ replied
        → ((create R c dto base_url s).0 ≡ ok (build_response c.task_id base_url))
          × ((create R c dto base_url s).1.world ≡ created_world c dto s.world)
          × (slot R laws key (create R c dto base_url s).1.store ≡ some c.task_id)
    unfolding create create_task commit_result
    create_fresh q m =
        let (first, held) = occupy_slot_free R laws key idempotency_ttl_seconds s.store free in
        rw
          (
            truthy-filled dto.idempotency_key key keyed filled,
            answered,
            first,
            inserted,
            insert_lem c dto s.world.db fresh unused,
            q,
            m,
          )
          (refl, refl, laws.get_set_keepttl (redis_key key) c.task_id _)

    -- With a free slot, a fresh id and a key that is not empty and that no row has, if the job is
    -- refused and every other call is answered, the task is removed again, the slot is free again,
    -- and the caller gets the error: nothing is left behind.
    pub create_rolled_back :
        c.enqueue ≡ refused
        → c.delete ≡ replied
        → c.release ≡ replied
        → ((create R c dto base_url s).0 ≡ err connection_lost)
          × ((create R c dto base_url s).1.world ≡ s.world)
          × (slot R laws key (create R c dto base_url s).1.store ≡ none)
    unfolding create create_task release_slot delete_by_id
    create_rolled_back q d r =
        let (first, held) = occupy_slot_free R laws key idempotency_ttl_seconds s.store free in
        rw
          (
            truthy-filled dto.idempotency_key key keyed filled,
            answered,
            first,
            inserted,
            insert_lem c dto s.world.db fresh unused,
            q,
            d,
            r,
            delete-inserted c.task_id s.world.db.tasks (created_row c dto) fresh refl,
          )
          (refl, refl, laws.get_del (redis_key key) _)

-- A client that asks again with the same key, whatever else has changed in its request, gets the
-- first task's id, and the second request changes nothing: one key, one task. The key is not
-- empty, and the id is neither empty nor the mark of an occupied slot. The first request finds a
-- free slot, a fresh id and a key that no row has, and its calls are answered; of the second
-- request's calls, the one on the slot is answered.
pub create_retried :
    (R : Redis) (laws : RedisLaws R) (c c' : Creating) (dto dto' : CreateTaskDto)
    (base_url key : String) (s : Site R)
    → dto.idempotency_key ≡ some key
    → dto'.idempotency_key ≡ some key
    → key ≢ ""
    → c.task_id ≢ ""
    → c.task_id ≢ pending_sentinel
    → slot R laws key s.store ≡ none
    → any (has_id c.task_id) s.world.db.tasks ≡ false
    → idempotency_key_taken dto.idempotency_key s.world.db.tasks ≡ false
    → c.occupy ≡ replied
    → c.insert ≡ replied
    → c.enqueue ≡ replied
    → c.commit ≡ replied
    → c'.occupy ≡ replied
    → let s' = (create R c dto base_url s).1 in
      ((create R c dto base_url s).0 ≡ ok (build_response c.task_id base_url))
      × (create R c' dto' base_url s' ≡ (ok (build_response c.task_id base_url), s'))
create_retried R laws c c' dto dto' base_url key s keyed keyed' filled named other free fresh unused
      o i q m o' =
    let (first, added_one, held) =
      create_fresh R laws c dto base_url key keyed filled o s free fresh unused i q m in
    (
      first,
      create_duplicate R laws c' dto' base_url key keyed' filled o' (create R c dto base_url s).1
          c.task_id held named other,
    )

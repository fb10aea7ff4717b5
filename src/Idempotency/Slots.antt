-- ===== src/Idempotency/Slots.antt =====
-- The life of a slot: free, occupied, committed, free again.
use async_long_request_proxy.Prelude.{
  ℕ, String, ◌≡◌, ◌≢◌, refl, false, Option, none, some, arith, ◌==◌, eq_iff,
}
use async_long_request_proxy.Result.{ok}
use async_long_request_proxy.Idempotency.{
  Redis, RedisLaws, acquired, pending, duplicate, pending_sentinel, redis_key, occupy_slot,
}

module _ (R : Redis) (laws : RedisLaws R) (key : String) where
  abbrev pub slot : R.Store → Option String
  slot s = R.get (redis_key key) s

  -- A free slot goes to the first caller, and to no other until it is released.
  pub occupy_slot_free :
      (ttl : ℕ) (s : R.Store)
      → slot s ≡ none
      → ((occupy_slot R key ttl s).0 ≡ ok acquired)
        × (slot (occupy_slot R key ttl s).1 ≡ some pending_sentinel)
  unfolding occupy_slot
  occupy_slot_free ttl s free =
      let (was_free, held) = laws.set_nx_ex_free (redis_key key) pending_sentinel ttl s free in
      rw was_free (refl, held)

  pub occupy_slot_held :
      (ttl : ℕ) (s : R.Store)
      → slot s ≡ some pending_sentinel
      → occupy_slot R key ttl s ≡ (ok pending, s)
  unfolding occupy_slot
  occupy_slot_held ttl s held =
      rw (laws.set_nx_ex_taken (redis_key key) pending_sentinel pending_sentinel ttl s held, held)
        refl

  pub occupy_slot_committed :
      (ttl : ℕ) (s : R.Store) (task_id : String)
      → slot s ≡ some task_id
      → task_id ≢ ""
      → task_id ≢ pending_sentinel
      → occupy_slot R key ttl s ≡ (ok (duplicate task_id), s)
  unfolding occupy_slot
  occupy_slot_committed ttl s task_id held filled other =
      let a : (task_id == "") ≡ false = ground (arith, eq_iff task_id "", filled) in
      let b : (task_id == pending_sentinel) ≡ false =
        ground (arith, eq_iff task_id pending_sentinel, other) in
      rw (laws.set_nx_ex_taken (redis_key key) pending_sentinel task_id ttl s held, held, a, b) refl

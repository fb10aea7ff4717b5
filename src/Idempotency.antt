-- ===== src/Idempotency.antt =====
-- libs/idempotency: a slot for each key, first occupied, then committed with the task's id. The
-- Redis server is a parameter: its commands, and what they promise about each key.
pub mod Slots
use Prim.Native.String.{◌++◌}
use async_long_request_proxy.Prelude.{
  ℕ, String, ◌≡◌, ◌≢◌, Bool, true, false, Option, none, some, ◌==◌, truthy, if◌then◌else◌,
}
use async_long_request_proxy.Result.{Result, ok, App}

-- GET, SET NX EX, SET KEEPTTL and DEL.
pub record Redis : Type 1 where
  pub Store : Type 0
  pub get : String → Store → Option String
  pub set_nx_ex : String → String → ℕ → Store → Bool × Store
  pub set_keepttl : String → String → Store → Store
  pub del : String → Store → Store

pub record RedisLaws (R : Redis) : Type 0 where
  pub set_nx_ex_free :
      (k v : String) (ttl : ℕ) (s : R.Store)
      → R.get k s ≡ none
      → ((R.set_nx_ex k v ttl s).0 ≡ true) × (R.get k (R.set_nx_ex k v ttl s).1 ≡ some v)
  pub set_nx_ex_taken :
      (k v w : String) (ttl : ℕ) (s : R.Store)
      → R.get k s ≡ some w
      → R.set_nx_ex k v ttl s ≡ (false, s)
  pub set_nx_ex_other :
      (j k v : String) (ttl : ℕ) (s : R.Store)
      → j ≢ k
      → R.get j (R.set_nx_ex k v ttl s).1 ≡ R.get j s
  pub get_set_keepttl : (k v : String) (s : R.Store) → R.get k (R.set_keepttl k v s) ≡ some v
  pub set_keepttl_other :
      (j k v : String) (s : R.Store) → j ≢ k → R.get j (R.set_keepttl k v s) ≡ R.get j s
  pub get_del : (k : String) (s : R.Store) → R.get k (R.del k s) ≡ none
  pub del_other : (j k : String) (s : R.Store) → j ≢ k → R.get j (R.del k s) ≡ R.get j s

pub data OccupySlotResult : Type 0 where
  acquired pending : OccupySlotResult
  duplicate : String → OccupySlotResult

abbrev pub key_prefix : String
key_prefix = "idempotency"

abbrev pub pending_sentinel : String
pending_sentinel = "__PENDING__"

abbrev pub redis_key : String → String
redis_key key = key_prefix ++ (":" ++ key)

-- What `occupySlot` makes of the value that holds a slot.
abbrev pub taken_slot : Option String → OccupySlotResult
taken_slot none = pending
taken_slot (some v) = if v == pending_sentinel then pending else duplicate v

module _ (R : Redis) where
  -- OCCUPY_SCRIPT, one step of the server, and the reading of its answer.
  unfoldable pub occupy_slot : String → ℕ → App R.Store OccupySlotResult
  occupy_slot key ttl_seconds s =
      let (was_free, s') = R.set_nx_ex (redis_key key) pending_sentinel ttl_seconds s in
      if was_free
      then (ok acquired, s')
      else (ok (taken_slot (truthy (R.get (redis_key key) s'))), s')

  unfoldable pub commit_result : String → String → App R.Store Unit
  commit_result key task_id s = (ok tt, R.set_keepttl (redis_key key) task_id s)

  unfoldable pub release_slot : String → App R.Store Unit
  release_slot key s = (ok tt, R.del (redis_key key) s)

-- ===== src/Examples/Creating.antt =====
-- Creation against a Redis server that is a function from keys to values, whose entries do not
-- expire.
use async_long_request_proxy.Prelude.{
  String, ◌≡◌, ◌≢◌, refl, false, Option, none, some, [], ◌==◌, eq_iff, eq_refl, arith, is_none,
  if◌then◌else◌, Option-cases, inl, inr,
}
use async_long_request_proxy.Result.{connection_lost, unique_violation, ok, err, replied, refused}
use async_long_request_proxy.Tasks.Schema.{idempotency_key_taken}
use async_long_request_proxy.Idempotency.{Redis, RedisLaws, pending_sentinel}
use async_long_request_proxy.Idempotency.Slots.{slot}
use async_long_request_proxy.World.{World}
use async_long_request_proxy.Tasks.Service.{CreateTaskDto, Creating, Site, build_response, create}
use async_long_request_proxy.Tasks.Service.Creation.{
  created_world, create_duplicate, create_key_reused, create_fresh, create_rolled_back,
  create_retried,
}
use async_long_request_proxy.Examples.{pending_row, with_row, world_of}

abbrev Entries : Type 0
Entries = String → Option String

abbrev put : String → Option String → Entries → Entries
put k v s j = if j == k then v else s j

abbrev pub functional : Redis
functional = record {
  Store = Entries;
  get = λ k s. s k;
  set_nx_ex = λ k v ttl s. (is_none (s k), if is_none (s k) then put k (some v) s else s);
  set_keepttl = λ k v s. put k (some v) s;
  del = λ k s. put k none s;
}

put-same : (k : String) (v : Option String) (s : Entries) → put k v s k ≡ v
put-same k v s = rw (eq_refl k) refl

put-other : (j k : String) (v : Option String) (s : Entries) → j ≢ k → put k v s j ≡ s j
put-other j k v s d = let other : (j == k) ≡ false = ground (arith, eq_iff j k, d) in rw other refl

functional-laws : RedisLaws functional
functional-laws = record {
  set_nx_ex_free = λ k v ttl s h. rw h (refl, put-same k (some v) s);
  set_nx_ex_taken = λ k v w ttl s h. rw h refl;
  set_nx_ex_other = λ j k v ttl s d. elim (Option-cases (s k)) [
    | inl h ↦ rw h (put-other j k (some v) s d)
    | inr (w, h) ↦ rw h refl
  ];
  get_set_keepttl = λ k v s. put-same k (some v) s;
  set_keepttl_other = λ j k v s d. put-other j k (some v) s d;
  get_del = λ k s. put-same k none s;
  del_other = λ j k s d. put-other j k none s d;
}

abbrev pub order : CreateTaskDto
order = record {
  type = "render-pdf";
  payload = none;
  executor_url = "https://executor/run";
  cancel_url = none;
  webhook_url = none;
  timeout_seconds = 300;
  idempotency_key = some "order-7";
}

abbrev pub answered : Creating
answered = record {
  now = 1000;
  task_id = "t7";
  callback_token = "secret";
  occupy = replied;
  insert = replied;
  enqueue = replied;
  delete = replied;
  release = replied;
  commit = replied;
}

abbrev queue_down : Creating
queue_down = record answered { enqueue = refused }

abbrev pub empty_world : World
empty_world = world_of (record { tasks = []; events = [] })

-- A site whose slot of the key holds `v`.
abbrev pub site : Option String → World → Site functional
site v w = record { store = λ k. v; world = w }

abbrev pub base : String
base = "https://proxy"

differ : (s t : String) → (s == t) ≡ false → s ≢ t
differ s t f e = ground (arith, eq_iff s t)

named : ◌≢◌ {A = String} "order-7" ""
named = differ "order-7" "" refl

first_answered :
    create functional answered order base (site (some "t1") empty_world)
    ≡ (ok (build_response "t1" base), site (some "t1") empty_world)
first_answered =
    create_duplicate functional functional-laws answered order base "order-7" refl named refl
      (site (some "t1") empty_world) "t1" refl (differ "t1" "" refl)
      (differ "t1" pending_sentinel refl)

create_key_reused_example :
    let s = site none (world_of (with_row pending_row)) in
    ((create functional answered order base s).0 ≡ err unique_violation)
    × ((create functional answered order base s).1.world ≡ s.world)
    × (slot functional functional-laws "order-7" (create functional answered order base s).1.store
        ≡ none)
create_key_reused_example =
    create_key_reused functional functional-laws answered order base "order-7" refl named refl
      (site none (world_of (with_row pending_row))) refl (unfold idempotency_key_taken in refl) refl
      refl

create_fresh_example :
    let s = site none empty_world in
    ((create functional answered order base s).0 ≡ ok (build_response "t7" base))
    × ((create functional answered order base s).1.world ≡ created_world answered order s.world)
    × (slot functional functional-laws "order-7" (create functional answered order base s).1.store
        ≡ some "t7")
create_fresh_example =
    create_fresh functional functional-laws answered order base "order-7" refl named refl
      (site none empty_world) refl refl (unfold idempotency_key_taken in refl) refl refl refl

create_rolled_back_example :
    let s = site none empty_world in
    ((create functional queue_down order base s).0 ≡ err connection_lost)
    × ((create functional queue_down order base s).1.world ≡ s.world)
    × (slot functional functional-laws "order-7" (create functional queue_down order base s).1.store
        ≡ none)
create_rolled_back_example =
    create_rolled_back functional functional-laws queue_down order base "order-7" refl named refl
      (site none empty_world) refl refl (unfold idempotency_key_taken in refl) refl refl refl refl

create_retried_example :
    let s = site none empty_world in
    let s' = (create functional answered order base s).1 in
    ((create functional answered order base s).0 ≡ ok (build_response "t7" base))
    × (create functional queue_down order base s' ≡ (ok (build_response "t7" base), s'))
create_retried_example =
    create_retried functional functional-laws answered queue_down order order base "order-7"
      (site none empty_world) refl refl named (differ "t7" "" refl)
      (differ "t7" pending_sentinel refl) refl refl (unfold idempotency_key_taken in refl) refl refl
      refl refl refl

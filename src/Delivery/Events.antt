-- ===== src/Delivery/Events.antt =====
-- src/modules/delivery/events.repository.ts: the append-only event log of the tasks.
pub mod Log
pub mod Replay
use async_long_request_proxy.Prelude.{
  ℕ, ◌+◌, String, ◌≡◌, Bool, true, false, ◌&&◌, List, [], ◌∷◌, ◌++◌, ◌==◌, max, ltb, leb, nat_eq,
  any, if◌then◌else◌,
}
use async_long_request_proxy.Result.{Result, ok, err, unique_violation, App, transaction}
use async_long_request_proxy.Table.{select}
use async_long_request_proxy.Tasks.Schema.{Time}
use async_long_request_proxy.Delivery.Schema.{TaskEventPayload, TaskEventSelect, Db}

-- COALESCE(MAX(seq), 0) over the events of a task
unfoldable pub max_seq : String → List TaskEventSelect → ℕ
max_seq task_id [] = 0
max_seq task_id (e ∷ es) =
    let rest = max_seq task_id es in if e.task_id == task_id then max e.seq rest else rest

abbrev pub next_seq : String → List TaskEventSelect → ℕ
next_seq task_id es = max_seq task_id es + 1

-- The unique index `task_events_task_id_seq_unique_idx`.
abbrev pub seq_taken : String → ℕ → List TaskEventSelect → Bool
seq_taken task_id seq es = any (λ e. e.task_id == task_id && nat_eq e.seq seq) es

abbrev pub new_event : String → Time → String → TaskEventPayload → ℕ → TaskEventSelect
new_event id now task_id payload seq = record {
  id = id;
  task_id = task_id;
  seq = seq;
  payload = payload;
  created_at = now;
}

-- The advisory lock makes the reading of the maximum and the INSERT one step for a task.
unfoldable pub insert_event_in_tx :
    String → Time → String → TaskEventPayload → App Db TaskEventSelect
insert_event_in_tx id now task_id payload db =
    let seq = next_seq task_id db.events in
    let event = new_event id now task_id payload seq in
    if seq_taken task_id seq db.events
    then (err unique_violation, db)
    else (ok event, record db { events = db.events ++ event ∷ [] })

unfoldable pub insert_event : String → Time → String → TaskEventPayload → App Db TaskEventSelect
insert_event id now task_id payload = transaction (insert_event_in_tx id now task_id payload)

-- ORDER BY seq
unfoldable pub insert_by_seq : TaskEventSelect → List TaskEventSelect → List TaskEventSelect
insert_by_seq e [] = e ∷ []
insert_by_seq e (f ∷ fs) =
    let rest = insert_by_seq e fs in if leb e.seq f.seq then e ∷ f ∷ fs else f ∷ rest

unfoldable pub order_by_seq : List TaskEventSelect → List TaskEventSelect
order_by_seq [] = []
order_by_seq (e ∷ es) = insert_by_seq e (order_by_seq es)

unfoldable pub find_events_since : String → ℕ → List TaskEventSelect → List TaskEventSelect
unfolding order_by_seq
find_events_since task_id after_seq es =
    order_by_seq (select (λ e. e.task_id == task_id && ltb after_seq e.seq) es)

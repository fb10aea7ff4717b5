-- ===== src/Maintenance/Repository/TimedOut.antt =====
-- What a batch of the sweeper leaves behind: the rows and the events, row by row.
use mathlib.Core.Path.{subst}
use async_long_request_proxy.Prelude.{
  ℕ, suc, ◌+◌, String, ◌≡◌, refl, sym, ap, ◌∙◌, Bool, false, not, ◌&&◌, ◌||◌, Option, none, some,
  List, [], ◌∷◌, ◌++◌, map, ◌==◌, any, length, ltb, All,
}
use async_long_request_proxy.Result.{ok}
use async_long_request_proxy.Table.{select, update}
use async_long_request_proxy.Table.Keyed.{IsKeyed, eq_sym}
use async_long_request_proxy.Tasks.Schema.{
  Time, TaskStatus, pending, processing, status_eq, TaskError, TaskSelect,
}
use async_long_request_proxy.Tasks.Repository.Integrity.{IsSound}
use async_long_request_proxy.Delivery.Schema.{TaskEventPayload, TaskEventSelect, Db}
use async_long_request_proxy.Delivery.Events.Log.{seqs, IsLog, max_seq-log}
use async_long_request_proxy.Maintenance.Repository.{
  ids_of, expired_rows, row_number, timeout_events, expire_timed_out_tasks_batch,
}
use async_long_request_proxy.Maintenance.Repository.Retention.{All-zip}
use async_long_request_proxy.Maintenance.Repository.Timeouts.{timeouts_of}
use async_long_request_proxy.Maintenance.Repository.Expired.{
  is_open, in_batch, timed_out, expire_done, batch_valid,
}
use async_long_request_proxy.Maintenance.Repository.Limited.{
  first_rows, change_first, first_rows-Pairwise, update-in_first, select-in_first,
}

abbrev pub has_passed : Option Time → Time → Bool
has_passed none now = false
has_passed (some deadline) now = ltb deadline now

-- A task that has not ended, whose deadline has passed, and that no other transaction has locked.
abbrev pub is_due : (String → Bool) → Time → TaskSelect → Bool
is_due locked now t =
    (status_eq t.status pending || status_eq t.status processing)
    && (has_passed t.expires_at now && not (locked t.id))

is_due_lem :
    (locked : String → Bool) (now : Time) (t : TaskSelect)
    → is_due locked now t ≡ is_open locked now t
is_due_lem locked now t = go t.status t.expires_at
  where
    go :
        (s : TaskStatus) (deadline : Option Time)
        → is_due locked now (record t { status = s; expires_at = deadline })
          ≡ is_open locked now (record t { status = s; expires_at = deadline })
    go pending none = refl
    go pending (some d) = refl
    go processing none = refl
    go processing (some d) = refl
    go TaskStatus.completed d = refl
    go TaskStatus.failed d = refl
    go TaskStatus.cancelled d = refl

abbrev pub expiry : TaskError
expiry = record {
  code = "BUSINESS_TIMEOUT";
  message = "Task exceeded its configured timeout and was automatically failed.";
  details = none;
}

-- The row of a task that has timed out.
abbrev pub failed_row : Time → TaskSelect → TaskSelect
failed_row now t = record t {
  status = TaskStatus.failed;
  error = some expiry;
  completed_at = some now;
  updated_at = now;
}

module _ (fresh : ℕ → String) (now : Time) (es : List TaskEventSelect) where
  -- One event for each of the rows, numbered after the events that its task has.
  unfoldable pub failed_events : ℕ → List TaskSelect → List TaskEventSelect
  failed_events k [] = []
  failed_events k (t ∷ ts) =
      record {
        id = fresh k;
        task_id = t.id;
        seq = length (seqs t.id es) + 1;
        payload = TaskEventPayload.failed expiry;
        created_at = now;
      }
      ∷ failed_events (suc k) ts

  abbrev IsFirst : List String → TaskSelect → Type 0
  IsFirst seen t = row_number t.id seen ≡ 1

  IsFirst-later :
      (seen : List String) (t : TaskSelect) (ts : List TaskSelect)
      → All (λ u. (u.id == t.id) ≡ false) ts
      → All (IsFirst seen) ts
      → All (IsFirst (t.id ∷ seen)) ts
  unfolding row_number
  IsFirst-later seen t ts other h =
      All-zip (λ u. (u.id == t.id) ≡ false) (IsFirst seen) (IsFirst (t.id ∷ seen))
        (λ u o f. rw (eq_sym t.id u.id, o) f) ts other h

  timeout_events-first :
      (ts : List TaskSelect) (seen : List String)
      → IsLog es
      → IsKeyed (λ t. t.id) ts
      → All (IsFirst seen) ts
      → timeout_events fresh now es seen (ids_of ts) ≡ failed_events (length seen) ts
  unfolding timeout_events failed_events
  timeout_events-first [] seen log keyed h = refl
  timeout_events-first (t ∷ ts) seen log keyed h =
      let rest =
        timeout_events-first ts (t.id ∷ seen) log keyed.1 (IsFirst-later seen t ts keyed.0 h.1) in
      rw (max_seq-log t.id es log, h.0, rest) refl

All-first : (ts : List TaskSelect) → All (λ t. row_number t.id [] ≡ 1) ts
unfolding row_number
All-first [] = tt
All-first (t ∷ ts) = (refl, All-first ts)

ids-map : (now : Time) (ts : List TaskSelect) → ids_of (map (timed_out now) ts) ≡ ids_of ts
ids-map now [] = refl
ids-map now (t ∷ ts) = ap (λ ids. t.id ∷ ids) (ids-map now ts)

length-map_timed : (now : Time) (ts : List TaskSelect) → length (map (timed_out now) ts) ≡ length ts
length-map_timed now [] = refl
length-map_timed now (t ∷ ts) = ap suc (length-map_timed now ts)

module _ (locked : String → Bool) (fresh : ℕ → String) (now : Time) (batch : ℕ) (db : Db)
    (sound : IsSound db) where
  -- What the batch does, for a condition on the rows.
  abbrev Expires : (TaskSelect → Bool) → Type 0
  Expires q =
      let rows = first_rows q batch db.tasks in
      let events = failed_events fresh now db.events 0 rows in
      any (λ t. q t && status_eq t.status pending) db.tasks ≡ false
      → expire_timed_out_tasks_batch locked fresh now batch db ≡ (
        ok (record { expired_count = length rows; events = events }),
        record {
          tasks = change_first q (failed_row now) batch db.tasks;
          events = db.events ++ events;
        },
      )

  Expires-open : Expires (is_open locked now)
  Expires-open no_pending =
      let q = is_open locked now in
      let rows = first_rows q batch db.tasks in
      let done =
        expire_done locked fresh now batch db sound
          (batch_valid locked fresh now batch db sound no_pending) in
      let chosen : select (in_batch locked now batch db) db.tasks ≡ rows =
        unfold expired_rows in select-in_first (λ t. t.id) q batch db.tasks sound.keys in
      let changed : update (in_batch locked now batch db) (timed_out now) db.tasks
          ≡ change_first q (failed_row now) batch db.tasks =
        unfold expired_rows in
        update-in_first (λ t. t.id) q (timed_out now) batch db.tasks sound.keys in
      let events : timeouts_of fresh now db (map (timed_out now) rows)
          ≡ failed_events fresh now db.events 0 rows =
        ap (timeout_events fresh now db.events []) (ids-map now rows)
        ∙ timeout_events-first fresh now db.events rows [] sound.log
            (first_rows-Pairwise (λ t u. (u.id == t.id) ≡ false) q batch db.tasks sound.keys)
            (All-first rows) in
      rw (chosen, changed, events, length-map_timed) at done

  -- Over tables that keep their constraints, and where no due task is PENDING: the first due tasks,
  -- as many as the batch may take, become FAILED with the error BUSINESS_TIMEOUT and the time, and
  -- no other row changes. Each of these tasks gets one 'failed' event with that error, numbered one
  -- more than the number of events that it has, in the order of the rows, and no other event is
  -- added. The rows are counted and their events reported. A task is due if it is PENDING or
  -- PROCESSING, its deadline is before the time, and no other transaction has it locked.
  pub expire_in_flight :
      any (λ t. is_due locked now t && status_eq t.status pending) db.tasks ≡ false
      → let rows = first_rows (is_due locked now) batch db.tasks in
        let events = failed_events fresh now db.events 0 rows in
        expire_timed_out_tasks_batch locked fresh now batch db ≡ (
          ok (record { expired_count = length rows; events = events }),
          record {
            tasks = change_first (is_due locked now) (failed_row now) batch db.tasks;
            events = db.events ++ events;
          },
        )
  expire_in_flight = subst Expires (λ i t. sym (is_due_lem locked now t) i) Expires-open

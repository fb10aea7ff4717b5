-- ===== src/Tasks/Service/Cancellation.antt =====
-- Cancellation: a task that has not ended becomes CANCELLED, any other request is refused.
use mathlib.Core.List.{append-nil}
use async_long_request_proxy.Prelude.{
  String, ◌≡◌, refl, sym, ap, ◌∙◌, true, false, ◌&&◌, Option, none, some, List, [], ◌∷◌, ◌++◌, ◌==◌,
  truthy, first,
}
use async_long_request_proxy.Result.{
  not_found, conflict, ok, err, App, pure, ◌>>=◌, transaction, commit_or_roll_back, replied,
}
use async_long_request_proxy.Result.Preserves.{bind_assoc}
use async_long_request_proxy.Tasks.Schema.{
  Time, TaskStatus, pending, processing, status_in, TaskSelect, tasks_valid_state_data,
}
use async_long_request_proxy.Delivery.Schema.{TaskEventPayload, TaskEventSelect, Db}
use async_long_request_proxy.Delivery.Events.{new_event, next_seq}
use async_long_request_proxy.Delivery.Events.Log.{insert_event_in_tx_lem}
use async_long_request_proxy.Tasks.Repository.{
  find_by_id, TaskPatch, no_change, set_status, update_returning, update_status, cancel_event,
  cancel_task,
}
use async_long_request_proxy.Tasks.Repository.CompareAndSet.{
  view, update_status_absent, update_status_other, update_status_set, update_status-done,
}
use async_long_request_proxy.Tasks.Repository.Integrity.{IsSound}
use async_long_request_proxy.Queue.{AddedJob, cancel, no_options, added}
use async_long_request_proxy.World.{World}
use async_long_request_proxy.Tasks.Service.{Cancelling, enqueue_cancel, cancel_by_user}

abbrev pub open_statuses : List TaskStatus
open_statuses = pending ∷ processing ∷ []

abbrev pub cancel_patch : Time → TaskPatch
cancel_patch now = record no_change { completed_at = some (some now) }

abbrev pub cancelled_row : Time → TaskSelect → TaskSelect
cancelled_row now t = set_status TaskStatus.cancelled (cancel_patch now) now t

abbrev pub cancelled_event : String → Time → String → Db → TaskEventSelect
cancelled_event event_id now id db =
    new_event event_id now id TaskEventPayload.cancelled (next_seq id db.events)

module _ (event_id : String) (now : Time) (id : String) (db : Db) where
  abbrev set_cancelled : App Db (Option TaskSelect)
  set_cancelled = update_status id open_statuses TaskStatus.cancelled (cancel_patch now) now

  -- The UPDATE of a cancellation is one of `updateStatus`.
  cancel_task-update_status :
      cancel_task event_id now id db
      ≡ transaction (set_cancelled >>= cancel_event event_id now id) db
  unfolding cancel_task update_status
  cancel_task-update_status =
      let changed =
        update_returning (λ t. t.id == id && status_in t.status open_statuses)
          (cancelled_row now) in
      ap (λ r. commit_or_roll_back r.0 db r.1)
        (sym (bind_assoc changed (λ ts. pure (first ts)) (cancel_event event_id now id) db))

  cancel_nothing : set_cancelled db ≡ (ok none, db) → cancel_task event_id now id db ≡ (ok none, db)
  cancel_nothing h = cancel_task-update_status ∙ rw h refl

  cancel_row :
      (t : TaskSelect) (tasks' : List TaskSelect)
      → set_cancelled db ≡ (ok (some t), record db { tasks = tasks' })
      → cancel_task event_id now id db ≡ (
        ok (some (t, cancelled_event event_id now id db)),
        record { tasks = tasks'; events = db.events ++ cancelled_event event_id now id db ∷ [] },
      )
  cancel_row t tasks' h = cancel_task-update_status ∙ rw (h, insert_event_in_tx_lem) refl

abbrev pub cancel_jobs : String → Option String → List AddedJob
cancel_jobs id none = []
cancel_jobs id (some url) = added (cancel id) no_options ∷ []

module _ (c : Cancelling) (id : String) (w : World) (sound : IsSound w.db)
    (answered : c.update ≡ replied) where
  -- Over tables that keep their constraints, and with both statements answered: a task that is not
  -- there is 'not found', one that is neither PENDING nor PROCESSING is a conflict, and nothing
  -- changes.
  pub cancel_refused :
      c.find ≡ replied
      → (view w.db id ≡ none → cancel_by_user c id w ≡ (err not_found, w))
        × ((t : TaskSelect)
            → view w.db id ≡ some t
            → status_in t.status open_statuses ≡ false
            → cancel_by_user c id w ≡ (err conflict, w))
  unfolding cancel_by_user
  cancel_refused read = (missing, ended)
    where
      missing : view w.db id ≡ none → cancel_by_user c id w ≡ (err not_found, w)
      missing h =
          let nothing =
            update_status_absent id open_statuses TaskStatus.cancelled (cancel_patch c.now) c.now
              w.db sound.keys h in
          rw (answered, cancel_nothing c.event_id c.now id w.db nothing, read, h) refl

      ended :
          (t : TaskSelect)
          → view w.db id ≡ some t
          → status_in t.status open_statuses ≡ false
          → cancel_by_user c id w ≡ (err conflict, w)
      ended t h other =
          let nothing =
            update_status_other id open_statuses TaskStatus.cancelled (cancel_patch c.now) c.now
              w.db sound.keys t h other in
          rw (answered, cancel_nothing c.event_id c.now id w.db nothing, read, h) refl

  enqueued :
      (url : Option String) (v : World)
      → enqueue_cancel replied id url v ≡ (ok tt, record v { jobs = v.jobs ++ cancel_jobs id url })
  enqueued none v = ap (λ js. (ok tt, record v { jobs = js })) (sym (append-nil v.jobs))
  enqueued (some url) v = refl

  -- Over tables that keep their constraints, and with every call answered, a PENDING or PROCESSING
  -- task becomes CANCELLED with its time of completion, one 'cancelled' event with the task's next
  -- number is recorded and published, and the executor's notification is queued exactly if the task
  -- has a cancel URL. The request itself sends nothing to the executor.
  pub cancel_accepted :
      (t : TaskSelect)
      → view w.db id ≡ some t
      → status_in t.status open_statuses ≡ true
      → c.publish ≡ replied
      → c.enqueue ≡ replied
      → let w' = (cancel_by_user c id w).1 in
        let event = cancelled_event c.event_id c.now id w.db in
        ((cancel_by_user c id w).0 ≡ ok tt)
        × (view w'.db id ≡ some (cancelled_row c.now t))
        × (w'.db.events ≡ w.db.events ++ event ∷ [])
        × (w'.published ≡ w.published ++ record { channel = id; event = event } ∷ [])
        × (w'.jobs ≡ w.jobs ++ cancel_jobs id (truthy t.cancel_url))
        × (w'.sent ≡ w.sent)
  unfolding cancel_by_user
  cancel_accepted t h match p e =
      let valid : tasks_valid_state_data (cancelled_row c.now t) ≡ true =
        unfold tasks_valid_state_data in refl in
      let set =
        update_status_set id open_statuses TaskStatus.cancelled (cancel_patch c.now) c.now w.db
          sound.keys t h match valid in
      let (done, shown) =
        update_status-done id open_statuses TaskStatus.cancelled (cancel_patch c.now) c.now w.db
          sound.keys t h match valid in
      let updated = (rw set at shown) in
      rw
        (
          answered,
          cancel_row c.event_id c.now id w.db (cancelled_row c.now t) _ set,
          p,
          e,
          enqueued,
        )
        (refl, unfold find_by_id in updated, refl, refl, refl, refl)

-- ===== src/Executor/Service/Submission.antt =====
-- The final result of an executor: accepted once, and only while the task is PROCESSING.
use mathlib.Core.List.{append-nil}
use async_long_request_proxy.Prelude.{
  String, ◌≡◌, ◌≢◌, refl, sym, ap, true, false, Option, none, some, List, [], ◌∷◌, ◌++◌, truthy,
  arith, Option-cases, inl, inr,
}
use async_long_request_proxy.Result.{ok, App, replied, perform}
use async_long_request_proxy.Result.Preserves.{Preserves, bind_rule, perform_rule}
use async_long_request_proxy.Tasks.Schema.{
  Time, processing, status_in, TaskSelect, tasks_valid_state_data,
}
use async_long_request_proxy.Delivery.Schema.{TaskEventPayload, TaskEventSelect, Db}
use async_long_request_proxy.Delivery.Events.{new_event, next_seq, insert_event}
use async_long_request_proxy.Delivery.Events.Log.{insert_event_lem}
use async_long_request_proxy.Tasks.Repository.{set_status, update_status, find_by_id}
use async_long_request_proxy.Tasks.Repository.CompareAndSet.{
  view, update_status_set, update_status-done, update_status_absent, update_status_other,
}
use async_long_request_proxy.Tasks.Repository.Integrity.{
  IsSound, update_status-IsSound, insert_event-IsSound, valid_row,
}
use async_long_request_proxy.Queue.{AddedJob, webhook, no_options, added, enqueue}
use async_long_request_proxy.World.{World, on_db, on_jobs, publish}
use async_long_request_proxy.World.Lifting.{InDb, on_db_rule}
use async_long_request_proxy.Executor.Service.{
  SubmitResultDto, completed, failed, Calls, final_status, final_patch, final_payload,
  enqueue_webhook, record_event, announce, submit_result,
}

-- A valid PROCESSING row may take a final status.
final_valid :
    (dto : SubmitResultDto) (now : Time) (db : Db) (id : String) (t : TaskSelect)
    → IsSound db
    → view db id ≡ some t
    → t.status ≡ processing
    → tasks_valid_state_data (set_status (final_status dto) (final_patch dto now) now t) ≡ true
unfolding tasks_valid_state_data
final_valid (completed result) now db id t s h p = ground (arith, valid_row db id t s h)
final_valid (failed error) now db id t s h p = ground (arith, valid_row db id t s h)

module _ (c : Calls) (task : TaskSelect) (dto : SubmitResultDto) where
  abbrev submitted : App Db (Option TaskSelect)
  submitted =
      update_status task.id (processing ∷ []) (final_status dto) (final_patch dto c.now) c.now

  record_event-IsSound :
      (payload : TaskEventPayload) → Preserves (InDb IsSound) (record_event c task payload)
  unfolding record_event
  record_event-IsSound payload =
      bind_rule (InDb IsSound) (perform c.insert (on_db inserted))
        (λ e. perform c.publish (publish task.id e))
        (perform_rule (InDb IsSound) c.insert (on_db inserted)
          (on_db_rule IsSound inserted (insert_event-IsSound c.event_id c.now task.id payload)))
        (λ e. perform_rule (InDb IsSound) c.publish (publish task.id e) (λ w s. s))
    where
      inserted : App Db TaskEventSelect
      inserted = insert_event c.event_id c.now task.id payload

  enqueue_webhook-IsSound :
      (url : Option String) → Preserves (InDb IsSound) (enqueue_webhook c.enqueue task.id url)
  enqueue_webhook-IsSound none = λ w s. s
  enqueue_webhook-IsSound (some url) =
      perform_rule (InDb IsSound) c.enqueue (on_jobs (enqueue (webhook task.id) no_options))
        (λ w s. s)

  announce-IsSound :
      (updated : Option TaskSelect) → Preserves (InDb IsSound) (announce c task dto updated)
  unfolding announce
  announce-IsSound none = λ w s. s
  announce-IsSound (some t) =
      bind_rule (InDb IsSound) (record_event c task (final_payload dto))
        (λ _. enqueue_webhook c.enqueue task.id (truthy task.webhook_url))
        (record_event-IsSound (final_payload dto))
        (λ _. enqueue_webhook-IsSound (truthy task.webhook_url))

  -- Whatever calls fail, tables that keep their constraints still do after a result, and a log that
  -- is numbered still is.
  pub submit_result-IsSound : (w : World) → IsSound w.db → IsSound (submit_result c task dto w).1.db
  unfolding submit_result
  submit_result-IsSound =
      bind_rule (InDb IsSound) (perform c.update (on_db submitted)) (announce c task dto)
        (perform_rule (InDb IsSound) c.update (on_db submitted) (
          on_db_rule IsSound submitted (
            update_status-IsSound task.id (processing ∷ []) (final_status dto)
              (final_patch dto c.now) c.now)))
        announce-IsSound

  -- Over tables that keep their constraints, and with the update answered, a result for a task that
  -- is gone or not PROCESSING any more is ignored: nothing changes, no event is recorded or
  -- published, no webhook is queued.
  pub submit_result_ignored :
      (w : World)
      → IsSound w.db
      → c.update ≡ replied
      → ((t : TaskSelect) → view w.db task.id ≡ some t → t.status ≢ processing)
      → submit_result c task dto w ≡ (ok tt, w)
  unfolding submit_result announce
  submit_result_ignored w s u other = elim (Option-cases (view w.db task.id)) [
    | inl h ↦
        rw
          (
            u,
            update_status_absent task.id (processing ∷ []) (final_status dto)
                (final_patch dto c.now) c.now w.db s.keys h,
          )
          refl
    | inr (t, h) ↦
        let no_match : status_in t.status (processing ∷ []) ≡ false = ground (arith, other t h) in
        rw
          (
            u,
            update_status_other task.id (processing ∷ []) (final_status dto) (final_patch dto c.now)
                c.now w.db s.keys t h no_match,
          )
          refl
  ]

  abbrev pub webhook_jobs : Option String → List AddedJob
  webhook_jobs none = []
  webhook_jobs (some url) = added (webhook task.id) no_options ∷ []

  abbrev pub final_row : TaskSelect → TaskSelect
  final_row t = set_status (final_status dto) (final_patch dto c.now) c.now t

  abbrev pub final_event : Db → TaskEventSelect
  final_event db =
      new_event c.event_id c.now task.id (final_payload dto) (next_seq task.id db.events)

  webhook_enqueued :
      (url : Option String) (w : World)
      → enqueue_webhook replied task.id url w
        ≡ (ok tt, record w { jobs = w.jobs ++ webhook_jobs url })
  webhook_enqueued none w = ap (λ js. (ok tt, record w { jobs = js })) (sym (append-nil w.jobs))
  webhook_enqueued (some url) w = refl

  announced :
      (w : World) (t : TaskSelect)
      → c.insert ≡ replied
      → c.publish ≡ replied
      → c.enqueue ≡ replied
      → announce c task dto (some t) w ≡ (
        ok tt,
        record {
          db = record (w.db) { events = w.db.events ++ final_event w.db ∷ [] };
          jobs = w.jobs ++ webhook_jobs (truthy task.webhook_url);
          published = w.published ++ record { channel = task.id; event = final_event w.db } ∷ [];
          sent = w.sent;
        },
      )
  unfolding announce record_event
  announced w t i p e = simp (i, p, e, insert_event_lem) (webhook_enqueued _ _)

  -- Over tables that keep their constraints, a result for a PROCESSING task, with all calls
  -- answered: the call succeeds, the row takes the final status with
  -- the result or the error and the time of completion, one event with the next number of the task
  -- is recorded and published, a webhook job is queued exactly if the task has a webhook URL, and
  -- nothing is posted yet.
  pub submit_result_accepted :
      (w : World) (t : TaskSelect)
      → IsSound w.db
      → view w.db task.id ≡ some t
      → t.status ≡ processing
      → c.update ≡ replied
      → c.insert ≡ replied
      → c.publish ≡ replied
      → c.enqueue ≡ replied
      → let w' = (submit_result c task dto w).1 in
        ((submit_result c task dto w).0 ≡ ok tt)
        × (view w'.db task.id ≡ some (final_row t))
        × (w'.db.events ≡ w.db.events ++ final_event w.db ∷ [])
        × (w'.published
            ≡ w.published ++ record { channel = task.id; event = final_event w.db } ∷ [])
        × (w'.jobs ≡ w.jobs ++ webhook_jobs (truthy task.webhook_url))
        × (w'.sent ≡ w.sent)
  unfolding submit_result
  submit_result_accepted w t s h p u i pu e =
      let match : status_in t.status (processing ∷ []) ≡ true =
        ap (λ v. status_in v (processing ∷ [])) p in
      let v = final_valid dto c.now w.db task.id t s h p in
      let set =
        update_status_set task.id (processing ∷ []) (final_status dto) (final_patch dto c.now) c.now
          w.db s.keys t h match v in
      let (done, shown) =
        update_status-done task.id (processing ∷ []) (final_status dto) (final_patch dto c.now)
          c.now w.db s.keys t h match v in
      let updated = (rw set at shown) in
      simp (u, set, announced, i, pu, e)
        (refl, unfold find_by_id in updated, refl, refl, refl, refl)

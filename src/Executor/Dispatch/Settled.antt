-- ===== src/Executor/Dispatch/Settled.antt =====
-- One run of a dispatch job whose statements are answered.
use async_long_request_proxy.Prelude.{
  ℕ, ◌<◌, ◌≤◌, ◌∙◌, String, ◌≡◌, refl, ap, true, false, some, [], ◌∷◌, ◌++◌, arith, Option-cases,
  inl, inr, ◌≢◌,
}
use async_long_request_proxy.Result.{Result, ok, err, replied}
use async_long_request_proxy.Tasks.Schema.{
  Json, TaskStatus, pending, processing, status_in, TaskSelect, tasks_valid_state_data,
}
use async_long_request_proxy.Tasks.Repository.{set_status, update_status}
use async_long_request_proxy.Tasks.Repository.CompareAndSet.{
  view, update_status-done, update_status_absent, update_status_other,
}
use async_long_request_proxy.Tasks.Repository.Integrity.{IsSound, update_status-IsSound, valid_row}
use async_long_request_proxy.HttpRetry.{HttpRetryOptions, default_options, start, post}
use async_long_request_proxy.HttpRetry.Attempts.{
  IsHttpResult, requests_due, requests_due-bounds, post_lem, post_error,
}
use async_long_request_proxy.World.{World, Request, repeated, dispatch_request, send}
use async_long_request_proxy.Executor.Dispatch.{
  Run, claim_patch, failure_patch, token_or_empty, conclude, deliver, process,
}

-- The row after a run: PROCESSING with its deadline, or FAILED with the error that ended the call.
abbrev pub settled : Run → ℕ → Result Json → TaskSelect → TaskSelect
settled r timeout_seconds (ok answer) t =
    set_status processing (claim_patch r.now timeout_seconds) r.now t
settled r timeout_seconds (err e) t =
    set_status TaskStatus.failed (failure_patch r e) r.later
      (set_status processing (claim_patch r.now timeout_seconds) r.now t)

abbrev pub dispatch_options : HttpRetryOptions
dispatch_options = record default_options { attempts = 3 }

abbrev pub reply_of : Run → Result Json
reply_of r = (post dispatch_options r.reply r.jitter start).0

-- How many requests a run sends: up to the first reply that is not transient, at most three.
abbrev pub requests_of : Run → ℕ
requests_of r = requests_due dispatch_options r.reply r.jitter

abbrev pub start_request : String → TaskSelect → Request
start_request id t = dispatch_request t.executor_url id t.payload (token_or_empty t.callback_token)

module _ (r : Run) (id : String) (timeout_seconds : ℕ) (w : World) (sound : IsSound w.db)
    (t : TaskSelect) where
  -- A valid PENDING row may become PROCESSING, and then FAILED.
  claimed_valid :
      view w.db id ≡ some t
      → t.status ≡ pending
      → tasks_valid_state_data (set_status processing (claim_patch r.now timeout_seconds) r.now t)
        ≡ true
  unfolding tasks_valid_state_data
  claimed_valid h p = ground (arith, valid_row w.db id t sound h)

  concluded :
      (res : Result Json) (w' : World)
      → IsHttpResult res
      → IsSound w'.db
      → view w'.db id ≡ some (settled r timeout_seconds (ok "") t)
      → r.settle ≡ replied
      → ((conclude r id res w').0 ≡ ok tt)
        × (view (conclude r id res w').1.db id ≡ some (settled r timeout_seconds res t))
        × ((conclude r id res w').1.sent ≡ w'.sent)
  unfolding conclude
  concluded (ok answer) w' k s h o = (refl, h, refl)
  concluded (err e) w' k s h o =
      let (done, shown) =
        update_status-done id (processing ∷ []) TaskStatus.failed (failure_patch r e) r.later w'.db
          s.keys (settled r timeout_seconds (ok "") t) h refl
          (unfold tasks_valid_state_data in refl) in
      rw (k, o, done) (refl, shown, refl)

  -- Over tables that keep their constraints, and with the updates answered, a PENDING task is
  -- posted to its executor by one to three equal HTTP requests, up to the first reply that is not
  -- transient. The job succeeds, and the row is PROCESSING with the deadline `now +
  -- timeoutSeconds` if that reply is a success; otherwise, after a refusal and after three
  -- transient failures alike, it is FAILED with the error's code.
  pub process_pending :
      view w.db id ≡ some t
      → t.status ≡ pending
      → r.claim ≡ replied
      → r.settle ≡ replied
      → ((process r id timeout_seconds w).0 ≡ ok tt)
        × (view (process r id timeout_seconds w).1.db id
            ≡ some (settled r timeout_seconds (reply_of r) t))
        × ((process r id timeout_seconds w).1.sent
            ≡ w.sent ++ repeated (requests_of r) (start_request id t))
        × (0 < requests_of r)
        × (requests_of r ≤ 3)
  unfolding process deliver conclude
  process_pending h p c o =
      let from_pending = ap (λ s. status_in s (pending ∷ [])) p in
      let (done, shown) =
        update_status-done id (pending ∷ []) processing (claim_patch r.now timeout_seconds) r.now
          w.db sound.keys t h from_pending (claimed_valid h p) in
      let claimed_db =
        (update_status id (pending ∷ []) processing (claim_patch r.now timeout_seconds) r.now
          w.db).1 in
      let posted = post dispatch_options r.reply r.jitter start in
      let (finished, row, sent) =
        concluded (reply_of r) (send (start_request id t) posted (record w { db = claimed_db }))
          (post_error dispatch_options r.reply r.jitter)
          (update_status-IsSound id (pending ∷ []) processing (claim_patch r.now timeout_seconds)
            r.now w.db sound)
          shown o in
      let count =
        ap (λ n. w.sent ++ repeated n (start_request id t))
          (post_lem dispatch_options r.reply r.jitter).1 in
      let (some_sent, few) = requests_due-bounds dispatch_options r.reply r.jitter (omega arith) in
      rw (c, done) (finished, row, sent ∙ count, some_sent, few)

-- Over tables that keep their constraints, and with the update answered, a task that is gone, or no
-- longer PENDING, is skipped: nothing is sent and nothing changes.
pub process_skipped :
    (r : Run) (id : String) (timeout_seconds : ℕ) (w : World)
    → IsSound w.db
    → r.claim ≡ replied
    → ((t : TaskSelect) → view w.db id ≡ some t → t.status ≢ pending)
    → process r id timeout_seconds w ≡ (ok tt, w)
unfolding process deliver
process_skipped r id timeout_seconds w sound c taken = elim (Option-cases (view w.db id)) [
  | inl h ↦
      rw
        (
          c,
          update_status_absent id (pending ∷ []) processing (claim_patch r.now timeout_seconds)
              r.now w.db sound.keys h,
        )
        refl
  | inr (t, h) ↦
      let other : status_in t.status (pending ∷ []) ≡ false = ground (arith, taken t h) in
      rw
        (
          c,
          update_status_other id (pending ∷ []) processing (claim_patch r.now timeout_seconds) r.now
              w.db sound.keys t h other,
        )
        refl
]

-- ===== src/System/Cancelled.antt =====
-- The end of a task that its client cancels: the cancellation, a dispatch job that was queued
-- before it, and the cancel job that it has queued.
use async_long_request_proxy.Prelude.{
  ◌<◌, ◌≤◌, arith, ℕ, String, ◌≡◌, refl, ap, ◌∙◌, false, Option, none, some, List, [], ◌∷◌, ◌++◌,
  truthy, true,
}
use async_long_request_proxy.Result.{ok, Outcome, replied, refused, reply_lost, perform, ◌>>=◌}
use async_long_request_proxy.Tasks.Schema.{pending, processing, status_in, TaskSelect}
use async_long_request_proxy.Tasks.Repository.{update_status}
use async_long_request_proxy.Tasks.Repository.CompareAndSet.{view, update_status_other}
use async_long_request_proxy.Tasks.Repository.Integrity.{IsSound}
use async_long_request_proxy.Tasks.Service.{Cancelling, cancel_by_user}
use async_long_request_proxy.Tasks.Service.Cancellation.{
  open_statuses, cancelled_row, cancel_jobs, cancel_accepted,
}
use async_long_request_proxy.HttpRetry.{Reply}
use async_long_request_proxy.HttpRetry.Attempts.{requests_due, requests_due-bounds}
use async_long_request_proxy.World.{World, Request, on_db, cancel_request, repeated}
use async_long_request_proxy.Executor.Dispatch.{Run, token_or_empty, claim_patch, deliver, process}
use async_long_request_proxy.Executor.Cancel.{cancel_options, process_cancel}
use async_long_request_proxy.Executor.Cancel.Notified.{notice, process_cancel_lem}
use async_long_request_proxy.System.Statement.{start}
use async_long_request_proxy.System.Statement.Sound.{Reaches-IsSound}
use async_long_request_proxy.System.Services.Requests.{cancel_by_user-Reached}

-- A dispatch job of a task that is not PENDING leaves the world as it is.
process_other :
    (r : Run) (id : String) (timeout_seconds : ℕ) (w : World) (t : TaskSelect)
    → IsSound w.db
    → view w.db id ≡ some t
    → status_in t.status (pending ∷ []) ≡ false
    → (process r id timeout_seconds w).1 ≡ w
unfolding process deliver
process_other r id timeout_seconds w t sound h other = go r.claim
  where
    go :
        (o : Outcome)
        → ((perform o (
                on_db (
                  update_status id
                    (pending ∷ [])
                    processing
                    (claim_patch r.now timeout_seconds)
                    r.now))
              >>= deliver r id)
            w).1
          ≡ w
    go replied =
        rw
          (update_status_other id (pending ∷ []) processing (claim_patch r.now timeout_seconds)
            r.now w.db sound.keys t h other)
          refl
    go refused = refl
    go reply_lost =
        rw
          (update_status_other id (pending ∷ []) processing (claim_patch r.now timeout_seconds)
            r.now w.db sound.keys t h other)
          refl

cancel_by_user-IsSound :
    (c : Cancelling) (id : String) (w : World) → IsSound w.db → IsSound (cancel_by_user c id w).1.db
cancel_by_user-IsSound c id w sound =
    Reaches-IsSound (cancel_by_user-Reached (λ s. Unit {0}) (λ s _. tt) w.db c id w start) sound

module _ (reply : ℕ → Reply) (jitter : ℕ → ℕ) (id : String) where
  -- The requests that tell the executor of a cancelled task, if the task has a cancel URL.
  abbrev pub tidings : TaskSelect → Option String → List Request
  tidings t none = []
  tidings t (some url) =
      repeated (requests_due cancel_options reply jitter)
        (cancel_request url id (token_or_empty t.callback_token))

module _ (c : Cancelling) (r : Run) (timeout_seconds : ℕ) (reply : ℕ → Reply) (jitter : ℕ → ℕ)
    (id : String) where
  abbrev pub accepted : World → World
  accepted w = (cancel_by_user c id w).1

  abbrev pub dispatched_late : World → World
  dispatched_late w = (process r id timeout_seconds (accepted w)).1

  abbrev pub told : World → World
  told w = (process_cancel reply jitter replied id (dispatched_late w)).1

  told_of :
      (t : TaskSelect) (url : Option String)
      → truthy t.cancel_url ≡ url
      → notice reply jitter id (some (cancelled_row c.now t)) ≡ tidings reply jitter id t url
  told_of t none h = rw h refl
  told_of t (some url) h = rw h refl

  -- A PENDING or PROCESSING task over tables that keep their constraints is cancelled, and the
  -- calls of the cancellation are answered. Then a dispatch job of the task runs, whatever becomes
  -- of its calls, and then the cancel job, whose read is answered. The dispatch job changes
  -- nothing and sends nothing. The cancel job succeeds and leaves the task CANCELLED; the requests
  -- sent are those that tell the executor of the cancellation, exactly if the task has a cancel
  -- URL, equal and up to the first reply that is not transient, at least one and at most two; and
  -- exactly then one job has been queued.
  pub cancelled_task :
      (w : World) (t : TaskSelect)
      → IsSound w.db
      → view w.db id ≡ some t
      → status_in t.status open_statuses ≡ true
      → c.update ≡ replied
      → c.publish ≡ replied
      → c.enqueue ≡ replied
      → (dispatched_late w ≡ accepted w)
        × ((process_cancel reply jitter replied id (dispatched_late w)).0 ≡ ok tt)
        × (view (told w).db id ≡ some (cancelled_row c.now t))
        × ((told w).sent ≡ w.sent ++ tidings reply jitter id t (truthy t.cancel_url))
        × ((told w).jobs ≡ w.jobs ++ cancel_jobs id (truthy t.cancel_url))
        × (0 < requests_due cancel_options reply jitter)
        × (requests_due cancel_options reply jitter ≤ 2)
  cancelled_task w t sound h still_open u p e =
      let bounds = requests_due-bounds cancel_options reply jitter (omega arith) in
      let (_, row, _, _, jobs, quiet) = cancel_accepted c id w sound u t h still_open p e in
      let v = accepted w in
      let late : dispatched_late w ≡ v =
        process_other r id timeout_seconds v (cancelled_row c.now t)
          (cancel_by_user-IsSound c id w sound) row refl in
      let done = process_cancel_lem reply jitter id v in
      let same = ap (process_cancel reply jitter replied id) late ∙ done in
      let last : told w
          ≡ record v { sent = v.sent ++ tidings reply jitter id t (truthy t.cancel_url) } =
        ap (λ x. x.1) same
        ∙ ap (λ x. record v { sent = v.sent ++ notice reply jitter id x }) row
        ∙ ap (λ n. record v { sent = v.sent ++ n }) (told_of t (truthy t.cancel_url) refl) in
      (
        late,
        ap (λ x. x.0) same,
        ap (λ (x : World). view x.db id) last ∙ row,
        ap (λ (x : World). x.sent) last
            ∙ ap (λ s. s ++ tidings reply jitter id t (truthy t.cancel_url)) quiet,
        ap (λ (x : World). x.jobs) last ∙ jobs,
        bounds.0,
        bounds.1,
      )

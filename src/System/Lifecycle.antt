-- ===== src/System/Lifecycle.antt =====
-- The life of a task from its dispatch to its webhook.
use mathlib.Core.Path.{subst}
use async_long_request_proxy.Prelude.{
  ℕ, String, ◌≡◌, refl, sym, ap, ◌∙◌, true, some, List, ◌++◌, truthy, eq_iff,
}
use async_long_request_proxy.Result.{ok, replied}
use async_long_request_proxy.Table.Laws.{find-holds}
use async_long_request_proxy.Tasks.Schema.{Json, pending, processing, is_terminal, TaskSelect}
use async_long_request_proxy.Tasks.Repository.{has_id, find_by_id}
use async_long_request_proxy.Tasks.Repository.CompareAndSet.{view}
use async_long_request_proxy.Tasks.Repository.Integrity.{IsSound}
use async_long_request_proxy.HttpRetry.{Reply}
use async_long_request_proxy.World.{World, repeated}
use async_long_request_proxy.Delivery.Webhook.{process_webhook}
use async_long_request_proxy.Delivery.Webhook.Delivered.{due, process_webhook_lem}
use async_long_request_proxy.Executor.Dispatch.{Run, process}
use async_long_request_proxy.Executor.Dispatch.Settled.{
  settled, reply_of, requests_of, start_request, process_pending,
}
use async_long_request_proxy.Executor.Service.{
  SubmitResultDto, completed, failed, Calls, submit_result,
}
use async_long_request_proxy.Executor.Service.Submission.{final_row, submit_result_accepted}
use async_long_request_proxy.Executor.Guard.{
  CallbackRequest, extract_bearer_token, can_activate, post_result,
}
use async_long_request_proxy.Executor.Guard.Access.{IsAllowed, can_activate_lem}
use async_long_request_proxy.System.Statement.{start}
use async_long_request_proxy.System.Statement.Sound.{Reaches-IsSound}
use async_long_request_proxy.System.Services.Workers.{process-Reached}

pub find_by_id-id : (id : String) (w : World) (t : TaskSelect) → view w.db id ≡ some t → t.id ≡ id
unfolding find_by_id
find_by_id-id id w t h = (eq_iff t.id id).0 (find-holds (has_id id) w.db.tasks h)

process-IsSound :
    (r : Run) (id : String) (timeout_seconds : ℕ) (w : World)
    → IsSound w.db
    → IsSound (process r id timeout_seconds w).1.db
process-IsSound r id timeout_seconds w sound =
    Reaches-IsSound (process-Reached (λ s. Unit {0}) (λ s _. tt) w.db r id timeout_seconds w start)
      sound

-- The calls of a callback are all answered.
pub record IsAnswered (c : Calls) : Type 0 where
  pub update : c.update ≡ replied
  pub insert : c.insert ≡ replied
  pub publish : c.publish ≡ replied
  pub enqueue : c.enqueue ≡ replied

-- The executor calls back with the token that the dispatch has given it.
pub record CallsBack (bytes : String → List ℕ) (req : CallbackRequest) (id : String)
    (t : TaskSelect) : Type 0 where
  pub token : String
  pub stored : String
  pub bearer : extract_bearer_token req ≡ some token
  pub named : truthy req.id ≡ some id
  pub has_token : truthy t.callback_token ≡ some stored
  pub same : bytes token ≡ bytes stored

post_result_passed :
    (bytes : String → List ℕ) (c : Calls) (req : CallbackRequest) (dto : SubmitResultDto)
    (w : World) (t : TaskSelect)
    → (can_activate bytes req w).0 ≡ ok t
    → (can_activate bytes req w).1 ≡ w
    → post_result bytes c req dto w ≡ submit_result c t dto w
unfolding post_result
post_result_passed bytes c req dto w t passes same = rw (passes, same) refl

final-terminal :
    (c : Calls) (p t : TaskSelect) (dto : SubmitResultDto)
    → is_terminal (final_row c p dto t).status ≡ true
final-terminal c p t (completed result) = refl
final-terminal c p t (failed error) = refl

module _ (bytes : String → List ℕ) (r : Run) (id : String) (timeout_seconds : ℕ) (c : Calls)
    (req : CallbackRequest) (dto : SubmitResultDto) (reply : ℕ → Reply) (jitter : ℕ → ℕ) where
  abbrev pub dispatched : World → World
  dispatched w = (process r id timeout_seconds w).1

  abbrev pub called_back : World → World
  called_back w = (post_result bytes c req dto (dispatched w)).1

  abbrev pub notified : World → World
  notified w = (process_webhook reply jitter replied id (called_back w)).1

  -- The row while the executor works, and the row at the end.
  abbrev pub working : TaskSelect → TaskSelect
  working t = settled r timeout_seconds (reply_of r) t

  abbrev pub ended : TaskSelect → TaskSelect
  ended t = final_row c (working t) dto (working t)

  -- A PENDING task over tables that keep their constraints is dispatched, the updates of the job
  -- are answered and the executor accepts the call. It calls back with the token that it was
  -- given, and the calls of the callback are answered. Then the webhook job runs, and its read is
  -- answered. Whatever the retries, the result, and the answers of the client's server are, the
  -- task has ended: its row has the result or the error, and the requests sent are those to the
  -- executor, equal and up to the one that it accepted, and then, exactly if the task has a webhook
  -- URL, those to the webhook, with that row's status, result and error, equal and up to the first
  -- reply that is not transient or the fifth.
  pub task_completes :
      (w : World) (t : TaskSelect) (answer : Json)
      → IsSound w.db
      → view w.db id ≡ some t
      → t.status ≡ pending
      → r.claim ≡ replied
      → r.settle ≡ replied
      → reply_of r ≡ ok answer
      → CallsBack bytes req id t
      → IsAnswered c
      → (view (notified w).db id ≡ some (ended t))
        × (is_terminal (ended t).status ≡ true)
        × ((notified w).sent
            ≡ (w.sent ++ repeated (requests_of r) (start_request id t))
              ++ due reply jitter (some (ended t)))
  task_completes w t answer sound h p claimed settles accepted back a =
      let (_, shown, sent, _, _) =
        process_pending r id timeout_seconds w sound t h p claimed settles in
      let row = working t in
      let running : row.status ≡ processing =
        ap (λ x. (settled r timeout_seconds x t).status) accepted in
      let named : row.id ≡ id = find_by_id-id id (dispatched w) row shown in
      let token : truthy row.callback_token ≡ some back.stored =
        ap (λ x. truthy (settled r timeout_seconds x t).callback_token) accepted ∙ back.has_token in
      let allowed : IsAllowed bytes req (dispatched w) row = record {
        token = back.token;
        id = id;
        stored = back.stored;
        bearer = back.bearer;
        named = back.named;
        found = shown;
        has_token = token;
        same = back.same;
        in_flight = running;
      } in
      let (passes, unchanged) = can_activate_lem bytes req (dispatched w) row in
      let (_, done, _, _, _, quiet) =
        submit_result_accepted c row dto (dispatched w) row
          (process-IsSound r id timeout_seconds w sound)
          (subst (λ i. view (dispatched w).db i ≡ some row) (sym named) shown) running a.update
          a.insert a.publish a.enqueue in
      let w₂ = (submit_result c row dto (dispatched w)).1 in
      let final : view w₂.db id ≡ some (ended t) =
        subst (λ i. view w₂.db i ≡ some (ended t)) named done in
      let last : notified w ≡ record w₂ { sent = w₂.sent ++ due reply jitter (some (ended t)) } =
        ap (λ v. (process_webhook reply jitter replied id v.1).1)
          (post_result_passed bytes c req dto (dispatched w) row (passes.1 allowed) unchanged)
        ∙ ap (λ v. v.1) (process_webhook_lem reply jitter replied id w₂).0
        ∙ ap (λ x. record w₂ { sent = w₂.sent ++ due reply jitter x }) final in
      (
        subst (λ (v : World). view v.db id ≡ some (ended t)) (sym last) final,
        final-terminal c row row dto,
        ap (λ (v : World). v.sent) last
            ∙ ap (λ s. s ++ due reply jitter (some (ended t))) (quiet ∙ sent),
      )

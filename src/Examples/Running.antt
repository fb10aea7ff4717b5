-- ===== src/Examples/Running.antt =====
-- The program as a whole, at concrete inputs.
use async_long_request_proxy.Prelude.{
  ◌≡◌, refl, true, false, some, none, List, [], ◌∷◌, ◌++◌, any, ◌||◌,
}
use async_long_request_proxy.Result.{ok, replied}
use async_long_request_proxy.Table.{find}
use async_long_request_proxy.Tasks.Schema.{TaskStatus, cancelled, is_terminal}
use async_long_request_proxy.Tasks.Repository.{has_id, find_by_id, set_status, no_change}
use async_long_request_proxy.Tasks.Repository.CompareAndSet.{view}
use async_long_request_proxy.Tasks.Repository.Integrity.{IsSound}
use async_long_request_proxy.Tasks.Service.{Site, Cancelling}
use async_long_request_proxy.Delivery.Webhook.Delivered.{due}
use async_long_request_proxy.World.{repeated}
use async_long_request_proxy.HttpRetry.{post, post_from, is_retryable_status}
use async_long_request_proxy.Executor.Dispatch.Settled.{requests_of, reply_of, start_request}
use async_long_request_proxy.Executor.Service.{completed}
use async_long_request_proxy.System.Actions.{
  Action, creates, cancels, posts_result, dispatches, sweeps, retains, act_all,
}
use async_long_request_proxy.System.Actions.Lasting.{deletes_from, act_all-IsSound, act_all-IsEnded}
use async_long_request_proxy.Delivery.Schema.{Db}
use async_long_request_proxy.System.Statement.{
  from_pending, from_processing, Statement, set_row, set_progress, cancel_row, expire_rows, exec,
  start, after,
}
use async_long_request_proxy.System.Statement.Ended.{Reaches-IsEnded}
use async_long_request_proxy.System.Statement.Ended.Rows.{Ending, IsEnded}
use async_long_request_proxy.System.Lifecycle.{notified, ended, task_completes}
use async_long_request_proxy.Examples.{pending_row, with_row, world_of, with_pending-IsSound}
use async_long_request_proxy.Examples.Creating.{functional, order, answered, base}
use async_long_request_proxy.Examples.Dispatching.{busy_once}
use async_long_request_proxy.Examples.Guarding.{bytes, with_token, the_token}
use async_long_request_proxy.Examples.Guarding as Guarding
use async_long_request_proxy.Examples.Maintaining.{at_noon}
use async_long_request_proxy.Examples.Configuring.{configuration}

abbrev cancelling : Cancelling
cancelling = record {
  now = 5000;
  event_id = "e2";
  update = replied;
  find = replied;
  publish = replied;
  enqueue = replied;
}

-- A result and a cancellation race after the dispatch; then the jobs run.
abbrev actions : List Action
actions =
    creates answered order base
    ∷ dispatches busy_once "t1" 300
    ∷ cancels cancelling "t1"
    ∷ posts_result Guarding.answered with_token (completed "{}")
    ∷ sweeps at_noon 5
    ∷ retains 5 864000000 configuration
    ∷ []

abbrev start_site : Site functional
start_site = record { store = λ k. none; world = world_of (with_row pending_row) }

act_all-IsSound_example : IsSound (act_all functional bytes actions start_site).world.db
act_all-IsSound_example = act_all-IsSound functional bytes actions start_site with_pending-IsSound

abbrev cancelled_site : Site functional
cancelled_site = record {
  store = λ k. none;
  world = world_of (
      with_row (
        set_status cancelled (record no_change { completed_at = some (some 5000) }) 5000
          pending_row));
}

abbrev at_5000 : Ending
at_5000 = record {
  status = cancelled;
  result = none;
  error = none;
  completed_at = some 5000;
  created_at = 1000;
}

act_all-IsEnded_example :
    let db = (act_all functional bytes actions cancelled_site).world.db in
    IsEnded "t1" at_5000 db
    × ((any (has_id "t1") db.tasks || any (deletes_from at_5000.created_at) actions) ≡ true)
act_all-IsEnded_example =
    act_all-IsEnded functional bytes "t1" at_5000 actions cancelled_site refl
      (refl, (tt, (tt, (tt, (tt, (tt, tt)))))) ((λ e. refl), tt) refl

-- After the cancellation: the claim of a dispatch, the result of an executor, the failure of the
-- dispatch and a sweep, in between each other.
abbrev steps : List Statement
steps =
    expire_rows (λ id. false) (λ k. "e") 900000 500
    ∷ set_row "t1" from_processing TaskStatus.failed no_change 8000
    ∷ set_progress "t1" 50 7000
    ∷ set_row "t1" from_processing TaskStatus.completed no_change 7000
    ∷ cancel_row "e3" 6500 "t1"
    ∷ set_row "t1" from_pending TaskStatus.processing no_change 6000
    ∷ []

-- The last step comes first.
abbrev after_steps : List Statement → Db → Db
after_steps [] db = db
after_steps (s ∷ ss) db = exec s (after_steps ss db)

Reaches-IsEnded_example : IsEnded "t1" at_5000 (after_steps steps cancelled_site.world.db)
Reaches-IsEnded_example =
    Reaches-IsEnded "t1" at_5000 refl
      (after _ tt (after _ tt (after _ tt (after _ tt (after _ tt (after _ tt start))))))
      ((λ e. refl), tt)

accepts : reply_of busy_once ≡ ok "accepted"
unfolding post post_from is_retryable_status
accepts = refl

task_completes_example :
    let w = world_of (with_row pending_row) in
    let last =
      notified bytes busy_once "t1" 300 Guarding.answered with_token
        (completed "{}")
        (λ n. busy_once.reply n)
        (λ n. 0)
        w in
    let row =
      ended bytes busy_once "t1" 300 Guarding.answered with_token
        (completed "{}")
        (λ n. busy_once.reply n)
        (λ n. 0)
        pending_row in
    (view last.db "t1" ≡ some row)
    × (is_terminal row.status ≡ true)
    × (last.sent
        ≡ ([] ++ repeated (requests_of busy_once) (start_request "t1" pending_row))
          ++ due (λ n. busy_once.reply n) (λ n. 0) (some row))
unfolding find_by_id find
task_completes_example =
    task_completes bytes busy_once "t1" 300 Guarding.answered with_token (completed "{}")
      (λ n. busy_once.reply n) (λ n. 0) (world_of (with_row pending_row)) pending_row "accepted"
      with_pending-IsSound refl refl refl refl accepts
      (record {
        token = "secret";
        stored = "secret";
        bearer = the_token;
        named = refl;
        has_token = refl;
        same = refl;
      })
      (record { update = refl; insert = refl; publish = refl; enqueue = refl })

-- ===== src/Examples/Guarding.antt =====
-- Callbacks with the right and with a wrong token, and a webhook, at concrete inputs. The bytes of
-- a text are here its length alone, which is enough to tell the tokens below apart.
use Prim.Native.String.{len}
use async_long_request_proxy.Prelude.{
  ◌<◌, ◌≤◌, ℕ, ◌≡◌, ◌↔◌, refl, sym, ◌∙◌, String, none, some, List, [], ◌∷◌, ◌++◌,
}
use async_long_request_proxy.Result.{Error, ok, err, replied}
use async_long_request_proxy.Table.{find}
use async_long_request_proxy.Tasks.Repository.{find_by_id}
use async_long_request_proxy.HttpRetry.{Reply, failure}
use async_long_request_proxy.Delivery.Webhook.{webhook_options, process_webhook}
use async_long_request_proxy.HttpRetry.Attempts.{requests_due}
use async_long_request_proxy.Delivery.Webhook.Delivered.{due, process_webhook_lem}
use async_long_request_proxy.Executor.Service.{Calls, completed}
use async_long_request_proxy.Executor.Guard.{
  CallbackRequest, extract_bearer_token, can_activate, post_result,
}
use async_long_request_proxy.Executor.Guard.Trim.{trim_start, trim_end}
use async_long_request_proxy.Text.{is_white_space}
use async_long_request_proxy.Executor.Guard.Access.{IsAllowed, can_activate_lem, post_result_denied}
use async_long_request_proxy.Examples.{processing_row, with_row, world_of}

abbrev pub bytes : String → List ℕ
bytes s = len s ∷ []

abbrev pub with_token : CallbackRequest
with_token = record { authorization = some "Bearer  secret "; id = some "t1" }

abbrev anonymous : CallbackRequest
anonymous = record { authorization = none; id = some "t1" }

pub the_token : extract_bearer_token with_token ≡ some "secret"
unfolding extract_bearer_token trim_start trim_end is_white_space
the_token = refl

can_activate_lem_example :
    let w = world_of (with_row processing_row) in
    ((can_activate bytes with_token w).0 ≡ ok processing_row
      ↔ IsAllowed bytes with_token w processing_row)
    × ((can_activate bytes with_token w).1 ≡ w)
can_activate_lem_example =
    can_activate_lem bytes with_token (world_of (with_row processing_row)) processing_row

let_through :
    (can_activate bytes with_token (world_of (with_row processing_row))).0 ≡ ok processing_row
unfolding find_by_id find
let_through = can_activate_lem_example.0.1 (record {
  token = "secret";
  id = "t1";
  stored = "secret";
  bearer = the_token;
  named = refl;
  found = refl;
  has_token = refl;
  same = refl;
  in_flight = refl;
})

abbrev pub answered : Calls
answered = record {
  now = 7000;
  event_id = "e1";
  update = replied;
  insert = replied;
  publish = replied;
  enqueue = replied;
}

no_token : extract_bearer_token anonymous ≡ none
unfolding extract_bearer_token
no_token = refl

token_refused :
    let w = world_of (with_row processing_row) in
    ((error : Error) × ((post_result bytes answered anonymous (completed "{}") w).0 ≡ err error))
    × ((post_result bytes answered anonymous (completed "{}") w).1 ≡ w)
token_refused =
    post_result_denied bytes answered anonymous (completed "{}")
      (world_of (with_row processing_row))
      (λ t a. let wrong : none ≡ some a.token = sym no_token ∙ a.bearer in cc)

abbrev unreachable : ℕ → Reply
unreachable n = failure (record { status = none; code = some "ECONNREFUSED" })

process_webhook_lem_example :
    let w = world_of (with_row processing_row) in
    (process_webhook unreachable (λ n. 0) replied "t1" w
      ≡ (ok tt, record w { sent = w.sent ++ due unreachable (λ n. 0) (find_by_id "t1" w.db) }))
    × (0 < requests_due webhook_options unreachable (λ n. 0))
    × (requests_due webhook_options unreachable (λ n. 0) ≤ 5)
process_webhook_lem_example =
    process_webhook_lem unreachable (λ n. 0) replied "t1" (world_of (with_row processing_row))

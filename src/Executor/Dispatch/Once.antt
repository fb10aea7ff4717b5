-- ===== src/Executor/Dispatch/Once.antt =====
-- However often and in whatever order the dispatch jobs run, only one of them posts a task, with
-- the retries of one call of the HTTP client.
use async_long_request_proxy.Prelude.{
  nat_eq, ◌+◌, ◌⊎◌, ℕ, ◌≤◌, ◌<◌, String, ◌≡◌, refl, sym, ap, ◌∙◌, Option, none, some, List, [], ◌∷◌,
  ◌++◌, ◌==◌, eq_iff, arith, Bool-cases, inl, inr, if◌then◌else◌,
}
use async_long_request_proxy.Result.{
  Result, ok, err, continue, Outcome, replied, refused, reply_lost, perform,
}
use async_long_request_proxy.Tasks.Schema.{TaskSelect}
use async_long_request_proxy.Tasks.Repository.CompareAndSet.{view}
use async_long_request_proxy.Tasks.Repository.Integrity.{IsSound}
use async_long_request_proxy.HttpRetry.Attempts.{post_error}
use async_long_request_proxy.HttpRetry.{default_options, start, post}
use async_long_request_proxy.World.{World, dispatch_request, repeated, on_db, send}
use async_long_request_proxy.Executor.Dispatch.{token_or_empty, Run, deliver, process}
use async_long_request_proxy.Executor.Dispatch.Concluded.{
  starts, starts_of, starts_of-append, starts_of-others, conclude-sent,
}
use async_long_request_proxy.Executor.Dispatch.Budget.{
  Budget, claiming, claim, Claimed, claimed, none_yet, process-Budget,
}

module _ (j : String) (r : Run) (id : String) (timeout_seconds : ℕ) where
  -- The requests of other jobs are no more after a run, or there were none before it.
  abbrev Stays : World → World → Type 0
  Stays w w' = (starts_of j w'.sent ≡ starts_of j w.sent) ⊎ (starts_of j w.sent ≡ 0)

  after_claim-Stays :
      (w w' : World) (u : TaskSelect)
      → Budget j w
      → Claimed j r id timeout_seconds w w' u
      → Stays w (deliver r id (some u) w').1
  unfolding deliver
  after_claim-Stays w w' u b ((t, found, was), stands, out, same) =
      let options = record default_options { attempts = 3 } in
      let posted = post options r.reply r.jitter start in
      let request =
        dispatch_request u.executor_url id u.payload (token_or_empty u.callback_token) in
      let n = posted.1.requests in
      let kept =
        conclude-sent r id (w'.sent ++ repeated n request) posted.0
          (post_error options r.reply r.jitter) (send request posted w') refl in
      elim (Bool-cases (id == j)) [
        | inl e ↦
            let here : id ≡ j = (eq_iff id j).0 e in
            inr (none_yet j r id timeout_seconds w t b (ap (view w.db) (sym here) ∙ found) was)
        | inr e ↦
            let new : starts j request ≡ 0 = rw e refl in
            inl (
              ap (starts_of j) kept
              ∙ omega (
                arith,
                starts_of-append j w'.sent (repeated n request),
                starts_of-others j n request new,
              )
              ∙ ap (starts_of j) same)
      ]

  continue_claim-Stays :
      (w : World) (res : Result (Option TaskSelect)) (w' : World)
      → Budget j w
      → w'.sent ≡ w.sent
      → ((u : TaskSelect) → res ≡ ok (some u) → Claimed j r id timeout_seconds w w' u)
      → Stays w (continue res (deliver r id) w').1
  continue_claim-Stays w (err e) w' b same c = inl (ap (starts_of j) same)
  continue_claim-Stays w (ok none) w' b same c = unfold deliver in inl (ap (starts_of j) same)
  continue_claim-Stays w (ok (some u)) w' b same c = after_claim-Stays w w' u b (c u refl)

  claim-sent :
      (o : Outcome) (w : World)
      → (perform o (on_db (claiming j r id timeout_seconds)) w).1.sent ≡ w.sent
  claim-sent replied w = refl
  claim-sent refused w = refl
  claim-sent reply_lost w = refl

  process-Stays : (w : World) → Budget j w → Stays w (process r id timeout_seconds w).1
  unfolding process
  process-Stays w b =
      continue_claim-Stays w (claim j r id timeout_seconds w).0 (claim j r id timeout_seconds w).1 b
        (claim-sent r.claim w) (λ u h. claimed j r id timeout_seconds r.claim w b.sound h)

-- A dispatch job: the task, its time budget, and what surrounds the run.
abbrev pub DispatchJob : Type 0
DispatchJob = String × ℕ × Run

pub process_all : List DispatchJob → World → World
process_all [] w = w
process_all ((id, timeout_seconds, r) ∷ jobs) w =
    process_all jobs (process r id timeout_seconds w).1

-- How many of the jobs send requests to start the task.
pub senders : String → List DispatchJob → World → ℕ
senders j [] w = 0
senders j ((id, timeout_seconds, r) ∷ jobs) w =
    let w' = (process r id timeout_seconds w).1 in
    (if nat_eq (starts_of j w'.sent) (starts_of j w.sent) then 0 else 1) + senders j jobs w'

process_all-Budget :
    (j : String) (jobs : List DispatchJob) (w : World) → Budget j w → Budget j (process_all jobs w)
unfolding process_all
process_all-Budget j [] w b = b
process_all-Budget j ((id, timeout_seconds, r) ∷ jobs) w b =
    process_all-Budget j jobs (process r id timeout_seconds w).1
      (process-Budget j r id timeout_seconds w b)

-- Once the task has been sent, no job sends it again.
senders-none :
    (j : String) (jobs : List DispatchJob) (w : World)
    → Budget j w
    → 0 < starts_of j w.sent
    → senders j jobs w ≡ 0
unfolding senders
senders-none j [] w b h = refl
senders-none j ((id, timeout_seconds, r) ∷ jobs) w b h =
    let w' = (process r id timeout_seconds w).1 in
    let b' = process-Budget j r id timeout_seconds w b in
    elim (process-Stays j r id timeout_seconds w b) [
      | inl same ↦
          let later = senders-none j jobs w' b' (omega (arith, same, h)) in
          ground (arith, same, later)
      | inr nothing ↦ absurd (omega (arith, nothing, h))
    ]

senders-once :
    (j : String) (jobs : List DispatchJob) (w : World) → Budget j w → senders j jobs w ≤ 1
unfolding senders
senders-once j [] w b = omega arith
senders-once j ((id, timeout_seconds, r) ∷ jobs) w b =
    let w' = (process r id timeout_seconds w).1 in
    let b' = process-Budget j r id timeout_seconds w b in
    elim (Bool-cases (nat_eq (starts_of j w'.sent) (starts_of j w.sent))) [
      | inl same ↦ rw same (omega (arith, senders-once j jobs w' b'))
      | inr other ↦ elim (process-Stays j r id timeout_seconds w b) [
        | inl same ↦ ground (arith, same, other)
        | inr nothing ↦
            let later = senders-none j jobs w' b' (ground (arith, nothing, other)) in
            rw other (omega (arith, later))
      ]
    ]

-- From a sound database and nothing sent for the task, take any dispatch jobs in any order, for
-- this and for other tasks, whatever the executors reply and whichever statements fail. At most one
-- of the jobs sends HTTP requests that start the task, and those are at most three, the attempts of
-- one call of the HTTP client.
pub starts_of-process_all :
    (j : String) (jobs : List DispatchJob) (w : World)
    → IsSound w.db
    → starts_of j w.sent ≡ 0
    → (senders j jobs w ≤ 1) × (starts_of j (process_all jobs w).sent ≤ 3)
starts_of-process_all j jobs w s none_sent =
    let budget : Budget j w = record {
      sound = s;
      once = omega arith;
      taken = λ p. absurd (omega arith);
    } in
    (senders-once j jobs w budget, (process_all-Budget j jobs w budget).once)

-- ===== src/Queue/Adapter/Again.antt =====
-- The queue of a name stays the same.
use async_long_request_proxy.Prelude.{
  String, ◌≡◌, refl, ap, ◌∙◌, none, some, List, [], ◌∷◌, ◌++◌, Option-cases, inl, inr, eq_refl,
  arith,
}
use async_long_request_proxy.Result.{
  Result, ok, err, Outcome, replied, refused, reply_lost, continue,
}
use async_long_request_proxy.Redis.Connection.{Connection}
use async_long_request_proxy.Queue.Adapter.{
  QueueConfig, create_bull_mq_connection, OpenConnection, Queue, BullMqAdapter, new_queue, lookup,
  make_queue, get_queue, add_job, enqueue_on,
}
use async_long_request_proxy.Queue.Adapter.Pool.{Enqueueing, enqueue_one, enqueue_all}

lookup-append_self :
    (name : String) (q : Queue) (qs : List (String × Queue))
    → lookup name qs ≡ none
    → lookup name (qs ++ (name, q) ∷ []) ≡ some q
unfolding lookup
lookup-append_self name q [] h = rw (eq_refl name) refl
lookup-append_self name q ((k, r) ∷ qs) h = ground (arith, h, lookup-append_self name q qs)

lookup-append_found :
    (name : String) (q : Queue) (qs rs : List (String × Queue))
    → lookup name qs ≡ some q
    → lookup name (qs ++ rs) ≡ some q
unfolding lookup
lookup-append_found name q [] rs h = cc
lookup-append_found name q ((k, r) ∷ qs) rs h = ground (arith, h, lookup-append_found name q qs rs)

module _ (c : QueueConfig) (name : String) (q : Queue) where
  abbrev Has : BullMqAdapter → Type 0
  Has s = lookup name s.queues ≡ some q

  make_queue-Has :
      (k : String) (r : Result Connection) (s : BullMqAdapter) → Has s → Has (make_queue k r s).1
  make_queue-Has k (err e) s h = h
  make_queue-Has k (ok connection) s h = lookup-append_found name q s.queues _ h

  get_queue-Has : (k : String) (s : BullMqAdapter) → Has s → Has (get_queue c k s).1
  unfolding get_queue
  get_queue-Has k s h = elim (Option-cases (lookup k s.queues)) [
    | inl n ↦ rw n (make_queue-Has k (create_bull_mq_connection c) s h)
    | inr (r, f) ↦ rw f h
  ]

  add_to-Has :
      (r : Queue) (e : Enqueueing) (fate : Outcome) (s : BullMqAdapter)
      → Has s
      → Has (add_job fate r e.job e.options s).1
  add_to-Has r e replied s h = h
  add_to-Has r e refused s h = h
  add_to-Has r e reply_lost s h = h

  add_job-Has :
      (e : Enqueueing) (r : Result Queue) (s : BullMqAdapter)
      → Has s
      → Has (continue r (λ queue. add_job e.fate queue e.job e.options) s).1
  add_job-Has e (err x) s h = h
  add_job-Has e (ok r) s h = add_to-Has r e e.fate s h

  enqueue_all-Has : (es : List Enqueueing) (s : BullMqAdapter) → Has s → Has (enqueue_all c es s)
  unfolding enqueue_all enqueue_on
  enqueue_all-Has [] s h = h
  enqueue_all-Has (e ∷ es) s h = enqueue_all-Has es (enqueue_one c e s) (
      add_job-Has e (get_queue c e.queue_name s).0 (get_queue c e.queue_name s).1
        (get_queue-Has e.queue_name s h))

  made-Has :
      (r : Result Connection) (s : BullMqAdapter)
      → lookup name s.queues ≡ none
      → (make_queue name r s).0 ≡ ok q
      → Has (make_queue name r s).1
  made-Has (err e) s n h = cc
  made-Has (ok connection) s n h =
      let client : OpenConnection = record { number = s.opened; options = connection } in
      let made : new_queue s.made name client ≡ q = cc in
      rw made (lookup-append_self name q s.queues n)

  returned-Has : (s : BullMqAdapter) → (get_queue c name s).0 ≡ ok q → Has (get_queue c name s).1
  unfolding get_queue
  returned-Has s h = elim (Option-cases (lookup name s.queues)) [
    | inl n ↦ rw n (made-Has (create_bull_mq_connection c) s n (rw n at h))
    | inr (r, f) ↦
        let same : ok r ≡ ok q = rw f at h in let equal : r ≡ q = cc in rw f (f ∙ ap some equal)
  ]

  -- If `getQueue` has returned a queue for a name, then after any calls of `enqueue` it returns the
  -- same queue for that name again, and makes none.
  pub get_queue_again :
      (es : List Enqueueing) (s : BullMqAdapter)
      → (get_queue c name s).0 ≡ ok q
      → let later = enqueue_all c es (get_queue c name s).1 in
        get_queue c name later ≡ (ok q, later)
  get_queue_again es s h =
      let later = enqueue_all c es (get_queue c name s).1 in
      let found : lookup name later.queues ≡ some q =
        enqueue_all-Has es (get_queue c name s).1 (returned-Has s h) in
      unfold get_queue in rw found refl

-- ===== src/Queue/Adapter/Pool.antt =====
-- The pool of queues: one queue for each name, made once, and all closed at the end.
use async_long_request_proxy.Prelude.{
  ℕ, zero, suc, String, ◌≡◌, refl, ap, ◌∙◌, false, none, List, [], ◌∷◌, ◌++◌, map, ◌==◌, All,
  All-append, Option-cases, inl, inr, eq_iff, arith, Bool-cases, sym, some,
}
use async_long_request_proxy.Result.{
  connection_lost, Result, ok, err, App, Outcome, replied, refused, reply_lost, perform, continue,
}
use async_long_request_proxy.Redis.Connection.{Connection}
use async_long_request_proxy.Queue.{QueueJob, JobOptions, AddedJob, added}
use async_long_request_proxy.Queue.Adapter.{
  QueueConfig, create_bull_mq_connection, Queue, BullMqAdapter, new_adapter, lookup, make_queue,
  QueuedJob, get_queue, add_job, enqueue_on, on_module_destroy,
}

-- 0, ..., n - 1
abbrev pub below : ℕ → List ℕ
below zero = []
below (suc n) = below n ++ n ∷ []

abbrev pub Distinct : List (String × Queue) → Type 0
Distinct [] = Unit
Distinct ((k, q) ∷ qs) = (lookup k qs ≡ none) × Distinct qs

abbrev numbers : List (String × Queue) → List ℕ
numbers = map (λ q. q.1.number)

abbrev connections : List (String × Queue) → List ℕ
connections = map (λ q. q.1.connection.number)

-- One call of `enqueue`.
pub record Enqueueing : Type 0 where
  pub queue_name : String
  pub fate : Outcome
  pub job : QueueJob
  pub options : JobOptions

-- What the services see of a job: the name of its queue, and the job.
abbrev pub seen : QueuedJob → String × AddedJob
seen j = (j.queue.name, j.added_job)

-- The queue adapter as its interface has it: a job for the queue of that name.
abbrev pub send_to : String → QueueJob → JobOptions → App (List (String × AddedJob)) Unit
send_to queue_name job options jobs = (ok tt, jobs ++ (queue_name, added job options) ∷ [])

seen-append :
    (js : List QueuedJob) (j : QueuedJob) → map seen (js ++ j ∷ []) ≡ map seen js ++ seen j ∷ []
seen-append [] j = refl
seen-append (i ∷ js) j = ap (λ l. seen i ∷ l) (seen-append js j)

module _ (c : QueueConfig) where
  abbrev IsNamed : String × Queue → Type 0
  IsNamed (k, q) = (q.name ≡ k) × (create_bull_mq_connection c ≡ ok q.connection.options)

  -- The queues of the map are all that have been made, in that order, one for each name. So are
  -- their clients: the one that is opened first belongs to the queue that is made first, and so on.
  -- No two queues share a client, and no client is without a queue.
  abbrev pub IsPool : BullMqAdapter → Type 0
  IsPool s =
      (numbers s.queues ≡ below s.made)
      × (connections s.queues ≡ below s.opened)
      × Distinct s.queues
      × All IsNamed s.queues
      × (s.closed ≡ [])

  abbrev pub enqueue_one : Enqueueing → BullMqAdapter → BullMqAdapter
  enqueue_one e s = (enqueue_on c e.queue_name e.fate e.job e.options s).1

  unfoldable pub enqueue_all : List Enqueueing → BullMqAdapter → BullMqAdapter
  enqueue_all [] s = s
  enqueue_all (e ∷ es) s = enqueue_all es (enqueue_one e s)

  map-append :
      (f : Queue → ℕ) (qs : List (String × Queue)) (name : String) (q : Queue)
      → map (λ x. f x.1) (qs ++ (name, q) ∷ []) ≡ map (λ x. f x.1) qs ++ f q ∷ []
  map-append f [] name q = refl
  map-append f (r ∷ qs) name q = ap (λ ns. f r.1 ∷ ns) (map-append f qs name q)

  lookup-append_other :
      (name k : String) (q : Queue) (qs : List (String × Queue))
      → lookup name qs ≡ none
      → (k == name) ≡ false
      → lookup name (qs ++ (k, q) ∷ []) ≡ none
  unfolding lookup
  lookup-append_other name k q [] h n = rw n refl
  lookup-append_other name k q ((j, r) ∷ qs) h n =
      ground (arith, h, lookup-append_other name k q qs)

  other_name :
      (name k : String) (q : Queue) (qs : List (String × Queue))
      → lookup name ((k, q) ∷ qs) ≡ none
      → ((name == k) ≡ false) × (lookup name qs ≡ none)
  unfolding lookup
  other_name name k q qs h = ground (arith, h, eq_iff name k, eq_iff k name)

  Distinct-append :
      (name : String) (q : Queue) (qs : List (String × Queue))
      → lookup name qs ≡ none
      → Distinct qs
      → Distinct (qs ++ (name, q) ∷ [])
  unfolding lookup
  Distinct-append name q [] h d = (refl, tt)
  Distinct-append name q ((j, r) ∷ qs) h d =
      let (other, none_later) = other_name name j r qs h in
      (lookup-append_other j name q qs d.0 other, Distinct-append name q qs none_later d.1)

  make_queue-IsPool :
      (name : String) (r : Result Connection) (s : BullMqAdapter)
      → create_bull_mq_connection c ≡ r
      → lookup name s.queues ≡ none
      → IsPool s
      → IsPool (make_queue name r s).1
  make_queue-IsPool name (err e) s k h p = p
  make_queue-IsPool name (ok options) s k h p = (
    map-append (λ q. q.number) s.queues name _ ∙ ap (λ ns. ns ++ s.made ∷ []) p.0,
    map-append (λ q. q.connection.number) s.queues name _ ∙ ap (λ ns. ns ++ s.opened ∷ []) p.1,
    Distinct-append name _ s.queues h p.2,
    All-append IsNamed s.queues _ p.3 ((refl, k), tt),
    p.4,
  )

  get_queue-IsPool : (name : String) (s : BullMqAdapter) → IsPool s → IsPool (get_queue c name s).1
  unfolding get_queue
  get_queue-IsPool name s p = elim (Option-cases (lookup name s.queues)) [
    | inl n ↦ rw n (make_queue-IsPool name (create_bull_mq_connection c) s refl n p)
    | inr (q, f) ↦ rw f p
  ]

  add_to-IsPool :
      (q : Queue) (e : Enqueueing) (fate : Outcome) (s : BullMqAdapter)
      → IsPool s
      → IsPool (add_job fate q e.job e.options s).1
  add_to-IsPool q e replied s p = p
  add_to-IsPool q e refused s p = p
  add_to-IsPool q e reply_lost s p = p

  add_job-IsPool :
      (e : Enqueueing) (r : Result Queue) (s : BullMqAdapter)
      → IsPool s
      → IsPool (continue r (λ queue. add_job e.fate queue e.job e.options) s).1
  add_job-IsPool e (err x) s p = p
  add_job-IsPool e (ok q) s p = add_to-IsPool q e e.fate s p

  enqueue_one-IsPool : (e : Enqueueing) (s : BullMqAdapter) → IsPool s → IsPool (enqueue_one e s)
  unfolding enqueue_on
  enqueue_one-IsPool e s p =
      add_job-IsPool e (get_queue c e.queue_name s).0 (get_queue c e.queue_name s).1
        (get_queue-IsPool e.queue_name s p)

  enqueue_all-IsPool :
      (es : List Enqueueing) (s : BullMqAdapter) → IsPool s → IsPool (enqueue_all es s)
  unfolding enqueue_all
  enqueue_all-IsPool [] s p = p
  enqueue_all-IsPool (e ∷ es) s p =
      enqueue_all-IsPool es (enqueue_one e s) (enqueue_one-IsPool e s p)

  -- After any calls of `enqueue` on a new adapter, in any order and with any fates, the map has
  -- one queue for each name, with that name and a client of its own, which no other queue has; its
  -- queues are all that have been made, in order, no client has been opened beside theirs, and
  -- `onModuleDestroy` closes each of them exactly once.
  pub enqueue_all-destroyed :
      (es : List Enqueueing)
      → let s = enqueue_all es new_adapter in
        IsPool s × ((on_module_destroy s).1.closed ≡ below s.made)
  unfolding on_module_destroy
  enqueue_all-destroyed es =
      let p = enqueue_all-IsPool es new_adapter (refl, refl, tt, tt, refl) in
      (p, ap (λ ns. ns ++ numbers (enqueue_all es new_adapter).queues) p.4 ∙ p.0)

  lookup-name :
      (name : String) (q : Queue) (qs : List (String × Queue))
      → All IsNamed qs
      → lookup name qs ≡ some q
      → q.name ≡ name
  unfolding lookup
  lookup-name name q [] a h = cc
  lookup-name name q ((k, r) ∷ qs) a h = elim (Bool-cases (k == name)) [
    | inl e ↦
        let same : some r ≡ some q = rw e at h in
        let equal : r ≡ q = cc in ap (λ x. x.name) (sym equal) ∙ a.0.0 ∙ (eq_iff k name).0 e
    | inr e ↦ lookup-name name q qs a.1 (rw e at h)
  ]

  add_job-seen :
      (fate : Outcome) (q : Queue) (e : Enqueueing) (s : BullMqAdapter)
      → q.name ≡ e.queue_name
      → let after = add_job fate q e.job e.options s in
        (after.0, map seen after.1.jobs)
        ≡ perform fate (send_to e.queue_name e.job e.options) (map seen s.jobs)
  add_job-seen replied q e s n =
      ap (λ l. (ok tt, l))
        (seen-append s.jobs _ ∙ ap (λ k. map seen s.jobs ++ (k, added e.job e.options) ∷ []) n)
  add_job-seen refused q e s n = refl
  add_job-seen reply_lost q e s n =
      ap (λ l. (err connection_lost, l))
        (seen-append s.jobs _ ∙ ap (λ k. map seen s.jobs ++ (k, added e.job e.options) ∷ []) n)

  -- With a configuration from which a connection can be made, on a pool (IsPool), the job is added
  -- to a queue that has the name which the caller has given: the outcome of a call of `enqueue` and
  -- the jobs by the names of their queues are those of an adapter that has nothing but a list of
  -- named jobs, whatever queues have been made before.
  pub enqueue_on-refines :
      (connection : Connection) (e : Enqueueing) (s : BullMqAdapter)
      → create_bull_mq_connection c ≡ ok connection
      → IsPool s
      → let after = enqueue_on c e.queue_name e.fate e.job e.options s in
        (after.0, map seen after.1.jobs)
        ≡ perform e.fate (send_to e.queue_name e.job e.options) (map seen s.jobs)
  unfolding enqueue_on get_queue
  enqueue_on-refines connection e s k p = elim (Option-cases (lookup e.queue_name s.queues)) [
    | inl n ↦ rw (n, k) (add_job-seen e.fate _ e _ refl)
    | inr (q, f) ↦ rw f (add_job-seen e.fate q e s (lookup-name e.queue_name q s.queues p.3 f))
  ]

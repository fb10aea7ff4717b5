-- ===== src/Executor/Dispatch/Budget.antt =====
-- What the requests for a task may be at any time: none while it is PENDING, at most the attempts
-- of one call of the HTTP client afterwards.
use async_long_request_proxy.Prelude.{
  ltb, ℕ, ◌≤◌, ◌<◌, String, ◌≡◌, refl, sym, ap, ◌∙◌, true, false, Option, none, some, [], ◌∷◌, ◌++◌,
  ◌==◌, eq_iff, arith, Bool-cases, inl, inr, if◌then◌else◌,
}
use async_long_request_proxy.Result.{
  Result, ok, err, App, continue, Outcome, replied, refused, reply_lost, perform,
}
use async_long_request_proxy.Result.Preserves.{Preserves, perform_rule}
use async_long_request_proxy.Tasks.Schema.{Json, pending, processing, status_eq, TaskSelect}
use async_long_request_proxy.Delivery.Schema.{Db}
use async_long_request_proxy.Tasks.Repository.{update_status}
use async_long_request_proxy.Tasks.Repository.CompareAndSet.{view, update_status-found}
use async_long_request_proxy.Tasks.Repository.Integrity.{IsSound, update_status-IsSound}
use async_long_request_proxy.HttpRetry.Attempts.{
  IsHttpResult, requests_due-bounds, post_lem, post_error,
}
use async_long_request_proxy.HttpRetry.{default_options, Progress, start, post}
use async_long_request_proxy.World.{World, Request, repeated, on_db, send}
use async_long_request_proxy.Executor.Dispatch.{Run, claim_patch, conclude, deliver, process}
use async_long_request_proxy.Executor.Dispatch.Concluded.{
  starts, starts_of, starts_of-append, starts_of-repeated, starts_of-others, IsTaken,
  update_status-IsTaken, conclude-Guarded, conclude-IsSound, conclude-sent,
}

pub record Budget (j : String) (w : World) : Type 0 where
  pub sound : IsSound w.db
  pub once : starts_of j w.sent ≤ 3
  pub taken : 0 < starts_of j w.sent → IsTaken j w.db

conclude-Budget :
    (j : String) (r : Run) (id : String) (res : Result Json)
    → IsHttpResult res
    → Preserves (Budget j) (conclude r id res)
conclude-Budget j r id res h w b = record {
  sound = conclude-IsSound r id res h w b.sound;
  once = rw same b.once;
  taken = λ p. (conclude-Guarded r id j res h w (b.sound, b.taken (rw same at p))).1;
}
  where
    same : (conclude r id res w).1.sent ≡ w.sent
    same = conclude-sent r id w.sent res h w refl

module _ (j : String) (r : Run) (id : String) (timeout_seconds : ℕ) where
  abbrev pub claiming : App Db (Option TaskSelect)
  claiming = update_status id (pending ∷ []) processing (claim_patch r.now timeout_seconds) r.now

  abbrev pub claim : App World (Option TaskSelect)
  claim = perform r.claim (on_db claiming)

  claim-Budget : Preserves (Budget j) claim
  claim-Budget = perform_rule (Budget j) r.claim (on_db claiming) λ w b. record {
    sound =
        update_status-IsSound id (pending ∷ []) processing (claim_patch r.now timeout_seconds) r.now
          w.db b.sound;
    once = b.once;
    taken = λ p.
        (update_status-IsTaken j id (pending ∷ []) processing (claim_patch r.now timeout_seconds)
          r.now refl w.db (b.sound, b.taken p)).1;
  }

  -- A claim that succeeds found the task PENDING, and leaves it PROCESSING.
  abbrev pub Claimed : World → World → TaskSelect → Type 0
  Claimed w w' u =
      ((t : TaskSelect) × (view w.db id ≡ some t) × (status_eq t.status pending ≡ true))
      × (view w'.db id ≡ some u)
      × (status_eq u.status pending ≡ false)
      × (w'.sent ≡ w.sent)

  pub claimed :
      (o : Outcome) (w : World) {u : TaskSelect}
      → IsSound w.db
      → (perform o (on_db claiming) w).0 ≡ ok (some u)
      → Claimed w (perform o (on_db claiming) w).1 u
  claimed replied w {u} s h =
      let (t, f, c, e, g) =
        update_status-found id (pending ∷ []) processing (claim_patch r.now timeout_seconds) r.now
          w.db s.keys h in
      ((t, f, ground (arith, c)), g, ap (λ v. status_eq v.status pending) e, refl)
  claimed refused w s h = cc
  claimed reply_lost w s h = cc

  -- The task had been PENDING, so nothing has been sent for it.
  pub none_yet :
      (w : World) (t : TaskSelect)
      → Budget j w
      → view w.db j ≡ some t
      → status_eq t.status pending ≡ true
      → starts_of j w.sent ≡ 0
  none_yet w t b h p = elim (Bool-cases (ltb 0 (starts_of j w.sent))) [
    | inl some_sent ↦
        let taken : status_eq t.status pending ≡ false = b.taken (ground arith) t h in cc
    | inr none_sent ↦ ground arith
  ]

  -- The world in which the request for the claimed task has been sent.
  sent-Budget :
      (w w' : World) (u : TaskSelect) (request : Request) (posted : Result Json × Progress)
      → posted.1.requests ≤ 3
      → Budget j w
      → Budget j w'
      → Claimed w w' u
      → starts j request ≡ (if id == j then 1 else 0)
      → Budget j (send request posted w')
  sent-Budget w w' u request posted few b b' ((t, found, was), stands, out, same) one =
      elim (Bool-cases (id == j)) [
        | inl e ↦
            let here : id ≡ j = (eq_iff id j).0 e in
            let nothing : starts_of j w.sent ≡ 0 =
              none_yet w t b (ap (view w.db) (sym here) ∙ found) was in
            let old : starts_of j w'.sent ≡ 0 = ap (starts_of j) same ∙ nothing in
            let new : starts j request ≡ 1 = one ∙ rw e in
            let n = posted.1.requests in
            let counted : starts_of j (w'.sent ++ repeated n request) ≡ n = omega (
              arith,
              starts_of-append j w'.sent (repeated n request),
              old,
              starts_of-repeated j n request new,
            ) in
            record {
              sound = b'.sound;
              once = omega (arith, counted, few);
              taken = λ p v h.
                  let row : some v ≡ some u = sym h ∙ ap (view w'.db) (sym here) ∙ stands in
                  let both : v ≡ u = cc in ap (λ x. status_eq x.status pending) both ∙ out;
            }
        | inr e ↦
            let new : starts j request ≡ 0 = one ∙ rw e in
            let n = posted.1.requests in
            let counted : starts_of j (w'.sent ++ repeated n request) ≡ starts_of j w'.sent =
              omega (
                arith,
                starts_of-append j w'.sent (repeated n request),
                starts_of-others j n request new,
              ) in
            record {
              sound = b'.sound;
              once = rw counted b'.once;
              taken = λ p. b'.taken (rw counted at p);
            }
      ]

  after_claim :
      (w w' : World) (u : TaskSelect)
      → Budget j w
      → Budget j w'
      → Claimed w w' u
      → Budget j (deliver r id (some u) w').1
  unfolding deliver
  after_claim w w' u b b' c =
      let options = record default_options { attempts = 3 } in
      let posted = post options r.reply r.jitter start in
      let few : posted.1.requests ≤ 3 = omega (
        arith,
        (post_lem options r.reply r.jitter).1,
        (requests_due-bounds options r.reply r.jitter (omega arith)).1,
      ) in
      conclude-Budget j r id posted.0 (post_error options r.reply r.jitter) _
        (sent-Budget w w' u _ posted few b b' c refl)

  continue_claim :
      (w : World) (res : Result (Option TaskSelect)) (w' : World)
      → Budget j w
      → Budget j w'
      → ((u : TaskSelect) → res ≡ ok (some u) → Claimed w w' u)
      → Budget j (continue res (deliver r id) w').1
  continue_claim w (err e) w' b b' c = b'
  continue_claim w (ok none) w' b b' c = unfold deliver in b'
  continue_claim w (ok (some u)) w' b b' c = after_claim w w' u b b' (c u refl)

  pub process-Budget : Preserves (Budget j) (process r id timeout_seconds)
  unfolding process
  process-Budget w b =
      continue_claim w (claim w).0 (claim w).1 b (claim-Budget w b)
        (λ u h. claimed r.claim w b.sound h)

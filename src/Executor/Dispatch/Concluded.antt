-- ===== src/Executor/Dispatch/Concluded.antt =====
-- What the end of a dispatch job leaves: the row is never PENDING again, and nothing more is sent.
use async_long_request_proxy.Prelude.{
  ℕ, zero, suc, ◌+◌, String, ◌≡◌, refl, sym, ap, ◌∙◌, false, Option, some, List, [], ◌∷◌, ◌++◌,
  ◌==◌, arith, inl, inr, if◌then◌else◌,
}
use async_long_request_proxy.Result.{Error, Result, ok, err, App, pure, perform}
use async_long_request_proxy.Result.Preserves.{Preserves, bind_rule, perform_rule}
use async_long_request_proxy.Tasks.Schema.{
  Json, Time, TaskStatus, pending, processing, status_eq, TaskSelect,
}
use async_long_request_proxy.Delivery.Schema.{Db}
use async_long_request_proxy.Tasks.Repository.{TaskPatch, set_status, update_status}
use async_long_request_proxy.Tasks.Repository.CompareAndSet.{view, update_status-effect}
use async_long_request_proxy.Tasks.Repository.Integrity.{IsSound, update_status-IsSound}
use async_long_request_proxy.HttpRetry.Attempts.{IsHttpResult}
use async_long_request_proxy.World.{World, Request, repeated, dispatch_request, on_db}
use async_long_request_proxy.World.Lifting.{InDb, on_db_rule}
use async_long_request_proxy.Executor.Dispatch.{Run, failure_patch, conclude}

-- The requests to start the task.
abbrev pub starts : String → Request → ℕ
starts j (dispatch_request url id payload token) = if id == j then 1 else 0
starts j r = 0

abbrev pub starts_of : String → List Request → ℕ
starts_of j [] = 0
starts_of j (r ∷ rs) = starts j r + starts_of j rs

pub starts_of-append :
    (j : String) (rs qs : List Request) → starts_of j (rs ++ qs) ≡ starts_of j rs + starts_of j qs
starts_of-append j [] qs = omega arith
starts_of-append j (r ∷ rs) qs = omega (arith, starts_of-append j rs qs)

pub starts_of-repeated :
    (j : String) (n : ℕ) (r : Request) → starts j r ≡ 1 → starts_of j (repeated n r) ≡ n
starts_of-repeated j zero r one = refl
starts_of-repeated j (suc n) r one = omega (arith, one, starts_of-repeated j n r one)

pub starts_of-others :
    (j : String) (n : ℕ) (r : Request) → starts j r ≡ 0 → starts_of j (repeated n r) ≡ 0
starts_of-others j zero r other = refl
starts_of-others j (suc n) r other = omega (arith, other, starts_of-others j n r other)

-- The row of the task, if it stands, is not PENDING.
abbrev pub IsTaken : String → Db → Type 0
IsTaken j db = (t : TaskSelect) → view db j ≡ some t → status_eq t.status pending ≡ false

abbrev pub Guarded : String → Db → Type 0
Guarded j db = IsSound db × IsTaken j db

-- A transition to another status than PENDING.
pub update_status-IsTaken :
    (j id : String) (from : List TaskStatus) (to : TaskStatus) (extra : TaskPatch) (now : Time)
    → status_eq to pending ≡ false
    → Preserves (Guarded j) (update_status id from to extra now)
update_status-IsTaken j id from to extra now other db (sound, taken) =
    (update_status-IsSound id from to extra now db sound, now_taken)
  where
    now_taken : IsTaken j (update_status id from to extra now db).1
    now_taken u h = elim (update_status-effect id from to extra now db sound.keys j) [
      | inl same ↦ taken u (sym same ∙ h)
      | inr (t, e, f, c, set) ↦
          let here : some (set_status to extra now t) ≡ some u = sym set ∙ h in
          let row : set_status to extra now t ≡ u = cc in
          ap (λ v. status_eq v.status pending) (sym row) ∙ other
    ]

module _ (r : Run) (id : String) where
  abbrev settling : Error → App Db (Option TaskSelect)
  settling e = update_status id (processing ∷ []) TaskStatus.failed (failure_patch r e) r.later

  -- After a delivery the only statement is the transition to FAILED: the error is always one that
  -- the HTTP client throws, so the task is never set back to PENDING.
  pub conclude_rule :
      (P : World → Type 0)
      → ((e : Error) → Preserves P (perform r.settle (on_db (settling e))))
      → (res : Result Json) → IsHttpResult res
      → Preserves P (conclude r id res)
  unfolding conclude
  conclude_rule P keeps (ok answer) h = λ w p. p
  conclude_rule P keeps (err e) h =
      rw h
        (bind_rule P (perform r.settle (on_db (settling e))) (λ _. pure tt) (keeps e) (λ _ w p. p))

  pub conclude-Guarded :
      (j : String) (res : Result Json)
      → IsHttpResult res
      → Preserves (InDb (Guarded j)) (conclude r id res)
  conclude-Guarded j = conclude_rule (InDb (Guarded j)) λ e.
      perform_rule (InDb (Guarded j)) r.settle (on_db (settling e)) (
        on_db_rule (Guarded j) (settling e) (
          update_status-IsTaken j id (processing ∷ []) TaskStatus.failed (failure_patch r e) r.later
            refl))

  pub conclude-IsSound :
      (res : Result Json) → IsHttpResult res → Preserves (InDb IsSound) (conclude r id res)
  conclude-IsSound = conclude_rule (InDb IsSound) λ e.
      perform_rule (InDb IsSound) r.settle (on_db (settling e)) (
        on_db_rule IsSound (settling e) (
          update_status-IsSound id (processing ∷ []) TaskStatus.failed (failure_patch r e) r.later))

  pub conclude-sent :
      (rs : List Request) (res : Result Json)
      → IsHttpResult res
      → Preserves (λ w. w.sent ≡ rs) (conclude r id res)
  conclude-sent rs =
      conclude_rule (λ w. w.sent ≡ rs)
        λ e. perform_rule (λ w. w.sent ≡ rs) r.settle (on_db (settling e)) (λ w h. h)

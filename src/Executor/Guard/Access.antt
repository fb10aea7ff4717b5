-- ===== src/Executor/Guard/Access.antt =====
-- A callback is let through exactly with the token of its task, and only while that is PROCESSING.
use mathlib.Core.Path.{subst}
use async_long_request_proxy.Prelude.{
  ℕ, ◌-◌, String, ◌≡◌, ◌↔◌, refl, sym, ap, ◌∙◌, true, some, List, [], ◌∷◌, ◌++◌, nat_eq, length,
  max, arith, truthy, Bool-cases, Option-cases, inl, inr, &&-true,
}
use async_long_request_proxy.Result.{Error, unauthorized, not_found, conflict, Result, ok, err}
use async_long_request_proxy.Tasks.Schema.{TaskStatus, processing, status_eq, TaskSelect}
use async_long_request_proxy.Tasks.Repository.{find_by_id}
use async_long_request_proxy.World.{World}
use async_long_request_proxy.Executor.Service.{SubmitResultDto, Calls}
use async_long_request_proxy.Executor.Guard.{
  CallbackRequest, extract_bearer_token, zeros, padded, timing_safe_equal, same_token,
  validate_token, check_task, can_activate, post_result,
}

pub timing_safe_equal_refl : (xs : List ℕ) → timing_safe_equal xs xs ≡ true
unfolding timing_safe_equal
timing_safe_equal_refl [] = refl
timing_safe_equal_refl (x ∷ xs) = ground (arith, timing_safe_equal_refl xs)

-- Buffers of one length that agree after padding are equal.
pub unpadded :
    (xs ys zs : List ℕ)
    → length xs ≡ length ys
    → timing_safe_equal (xs ++ zs) (ys ++ zs) ≡ true
    → xs ≡ ys
unfolding timing_safe_equal
unpadded [] [] zs l e = refl
unpadded [] (y ∷ ys) zs l e = ground arith
unpadded (x ∷ xs) [] zs l e = ground arith
unpadded (x ∷ xs) (y ∷ ys) zs l e =
    let (same, rest) = &&-true (nat_eq x y) (timing_safe_equal (xs ++ zs) (ys ++ zs)) e in
    let tails = unpadded xs ys zs (omega arith) rest in
    let heads : x ≡ y = ground arith in rw (tails, heads) refl

-- The padded comparison in constant time, with the comparison of the lengths, is equality.
pub same_token_lem : (xs ys : List ℕ) → same_token xs ys ≡ true ↔ xs ≡ ys
unfolding same_token
same_token_lem xs ys = (one, two)
  where
    one : same_token xs ys ≡ true → xs ≡ ys
    one e =
        let m = max (length xs) (length ys) in
        let (pads, lens) =
          &&-true (timing_safe_equal (padded m xs) (padded m ys)) (nat_eq (length xs) (length ys))
            e in
        let same : length xs ≡ length ys = ground arith in
        unpadded xs ys (zeros (m - length xs)) same (
          subst (λ n. timing_safe_equal (padded m xs) (ys ++ zeros (m - n)) ≡ true) (sym same) pads)

    two : xs ≡ ys → same_token xs ys ≡ true
    two e = rw (e, timing_safe_equal_refl) (ground arith)

-- What a callback must show: a bearer token whose bytes are those of the token of an existing task
-- that is PROCESSING.
pub record IsAllowed (bytes : String → List ℕ) (req : CallbackRequest) (w : World) (t : TaskSelect)
    : Type 0 where
  pub token : String
  pub id : String
  pub stored : String
  pub bearer : extract_bearer_token req ≡ some token
  pub named : truthy req.id ≡ some id
  pub found : find_by_id id w.db ≡ some t
  pub has_token : truthy t.callback_token ≡ some stored
  pub same : bytes token ≡ bytes stored
  pub in_flight : t.status ≡ processing

status_eq-processing : (s : TaskStatus) → status_eq s processing ≡ true → s ≡ processing
status_eq-processing processing e = refl
status_eq-processing TaskStatus.pending e = cc
status_eq-processing TaskStatus.completed e = cc
status_eq-processing TaskStatus.failed e = cc
status_eq-processing TaskStatus.cancelled e = cc

module _ (bytes : String → List ℕ) where
  check_task-allowed :
      (token : String) (task t : TaskSelect)
      → check_task bytes token task ≡ ok t
      → (task ≡ t)
        × ((stored : String) × (truthy task.callback_token ≡ some stored)
            × (bytes token ≡ bytes stored))
        × (task.status ≡ processing)
  unfolding check_task validate_token
  check_task-allowed token task t e = elim (Option-cases (truthy task.callback_token)) [
    | inl n ↦ let wrong : err unauthorized ≡ ok t = (rw (check_task, validate_token, n) at e) in cc
    | inr (stored, h) ↦ elim (Bool-cases (same_token (bytes token) (bytes stored))) [
      | inl m ↦ elim (Bool-cases (status_eq task.status processing)) [
        | inl p ↦
            let same : ok task ≡ ok t = (rw (check_task, validate_token, h, m, p) at e) in
            let task_same : task ≡ t = cc in
            (
              task_same,
              (stored, h, (same_token_lem (bytes token) (bytes stored)).0 m),
              status_eq-processing task.status p,
            )
        | inr p ↦
            let wrong : err conflict ≡ ok t = (rw (check_task, validate_token, h, m, p) at e) in cc
      ]
      | inr m ↦
          let wrong : err unauthorized ≡ ok t = (rw (check_task, validate_token, h, m) at e) in cc
    ]
  ]

  check_task-passes :
      (token stored : String) (t : TaskSelect)
      → truthy t.callback_token ≡ some stored
      → bytes token ≡ bytes stored
      → t.status ≡ processing
      → check_task bytes token t ≡ ok t
  unfolding check_task validate_token
  check_task-passes token stored t h m p =
      let valid = (same_token_lem (bytes token) (bytes stored)).1 m in
      let now : status_eq t.status processing ≡ true = ap (λ s. status_eq s processing) p in
      rw (check_task, validate_token, h, valid, now) refl

  pub can_activate-unchanged :
      (req : CallbackRequest) (w : World) → (can_activate bytes req w).1 ≡ w
  unfolding can_activate
  can_activate-unchanged req w = ground arith

  -- The guard lets a request through, with task `t`, exactly if the request is allowed to call back
  -- for `t`; it changes nothing.
  pub can_activate_lem :
      (req : CallbackRequest) (w : World) (t : TaskSelect)
      → ((can_activate bytes req w).0 ≡ ok t ↔ IsAllowed bytes req w t)
        × ((can_activate bytes req w).1 ≡ w)
  unfolding can_activate
  can_activate_lem req w t = ((only, when), can_activate-unchanged req w)
    where
      only : (can_activate bytes req w).0 ≡ ok t → IsAllowed bytes req w t
      only e = elim (Option-cases (extract_bearer_token req)) [
        | inl n ↦ let wrong : err unauthorized ≡ ok t = (rw (can_activate, n) at e) in cc
        | inr (token, b) ↦ elim (Option-cases (truthy req.id)) [
          | inl n ↦ let wrong : err not_found ≡ ok t = (rw (can_activate, b, n) at e) in cc
          | inr (id, i) ↦ elim (Option-cases (find_by_id id w.db)) [
            | inl n ↦ let wrong : err not_found ≡ ok t = (rw (can_activate, b, i, n) at e) in cc
            | inr (task, f) ↦
                let checked : check_task bytes token task ≡ ok t =
                  (rw (can_activate, b, i, f) at e) in
                let (same, (stored, h, m), p) = check_task-allowed token task t checked in
                record {
                  token = token;
                  id = id;
                  stored = stored;
                  bearer = b;
                  named = i;
                  found = f ∙ ap some same;
                  has_token = subst (λ u. truthy u.callback_token ≡ some stored) same h;
                  same = m;
                  in_flight = subst (λ u. u.status ≡ processing) same p;
                }
          ]
        ]
      ]

      when : IsAllowed bytes req w t → (can_activate bytes req w).0 ≡ ok t
      when a =
          let checked = check_task-passes a.token a.stored t a.has_token a.same a.in_flight in
          rw (can_activate, a.bearer, a.named, a.found, checked) refl

  -- A result that comes with a request that is not allowed to call back for any task throws, and
  -- changes nothing: no row, no event, no message and no job.
  pub post_result_denied :
      (c : Calls) (req : CallbackRequest) (dto : SubmitResultDto) (w : World)
      → ((t : TaskSelect) → ¬ IsAllowed bytes req w t)
      → ((error : Error) × ((post_result bytes c req dto w).0 ≡ err error))
        × ((post_result bytes c req dto w).1 ≡ w)
  unfolding post_result
  post_result_denied c req dto w denied = answered (can_activate bytes req w).0 refl
    where
      answered :
          (r : Result TaskSelect)
          → (can_activate bytes req w).0 ≡ r
          → ((error : Error) × ((post_result bytes c req dto w).0 ≡ err error))
            × ((post_result bytes c req dto w).1 ≡ w)
      answered (ok t) e = absurd (denied t ((can_activate_lem req w t).0.0 e))
      answered (err error) e = rw (post_result, e) ((error, refl), can_activate-unchanged req w)

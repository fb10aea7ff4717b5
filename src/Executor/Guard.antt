-- ===== src/Executor/Guard.antt =====
-- src/modules/executor/guards/callback-auth.guard.ts and executor.controller.ts: who may call back.
-- `Buffer.from`, the bytes of a text, is a parameter.
pub mod Access
pub mod Trim
use Prim.Native.String.{len, slice}
use text.Mathlib.Text.{starts_with}
use async_long_request_proxy.Prelude.{
  ℕ, zero, suc, ◌-◌, String, Bool, true, false, not, ◌&&◌, Option, none, some, List, [], ◌∷◌, ◌++◌,
  ◌==◌, any, nat_eq, length, max, truthy, if◌then◌else◌,
}
use async_long_request_proxy.Result.{
  Error, unauthorized, not_found, conflict, Result, ok, err, App, continue,
}
use async_long_request_proxy.Tasks.Schema.{TaskStatus, processing, status_eq, TaskSelect}
use async_long_request_proxy.Tasks.Repository.{find_by_id}
use async_long_request_proxy.World.{World}
use async_long_request_proxy.Executor.Guard.Trim.{trim}
use async_long_request_proxy.Executor.Service.{
  SubmitResultDto, UpdateProgressDto, Calls, submit_result, update_progress_of,
}

-- The parts of the request that the guard reads.
pub record CallbackRequest : Type 0 where
  pub authorization : Option String
  pub id : Option String

-- auth.startsWith('Bearer '), auth.slice(7).trim(), and no empty token.
unfoldable pub extract_bearer_token : CallbackRequest → Option String
extract_bearer_token req = elim req.authorization [
  | none ↦ none
  | some auth ↦
      if starts_with auth "Bearer " then truthy (some (trim (slice auth 7 (len auth)))) else none
]

-- Buffer.alloc(n) with the bytes copied to its beginning.
abbrev pub zeros : ℕ → List ℕ
zeros zero = []
zeros (suc n) = 0 ∷ zeros n

abbrev pub padded : ℕ → List ℕ → List ℕ
padded n buf = buf ++ zeros (n - length buf)

-- timingSafeEqual
unfoldable pub timing_safe_equal : List ℕ → List ℕ → Bool
timing_safe_equal [] [] = true
timing_safe_equal [] (b ∷ bs) = false
timing_safe_equal (a ∷ rest) [] = false
timing_safe_equal (a ∷ rest) (b ∷ bs) = nat_eq a b && timing_safe_equal rest bs

unfoldable pub same_token : List ℕ → List ℕ → Bool
same_token provided stored =
    let max_len = max (length provided) (length stored) in
    timing_safe_equal (padded max_len provided) (padded max_len stored)
    && nat_eq (length provided) (length stored)

module _ (bytes : String → List ℕ) where
  unfoldable pub validate_token : String → Option String → Result (Unit {0})
  validate_token provided stored = elim (truthy stored) [
    | none ↦ err unauthorized
    | some token ↦ if same_token (bytes provided) (bytes token) then ok tt else err unauthorized
  ]

  unfoldable pub check_task : String → TaskSelect → Result TaskSelect
  check_task token task = elim (validate_token token task.callback_token) [
    | err e ↦ err e
    | ok u ↦ if not (status_eq task.status processing) then err conflict else ok task
  ]

  -- `canActivate`, which attaches the task to the request.
  unfoldable pub can_activate : CallbackRequest → App World TaskSelect
  can_activate req w = elim (extract_bearer_token req) [
    | none ↦ (err unauthorized, w)
    | some token ↦ elim (truthy req.id) [
      | none ↦ (err not_found, w)
      | some id ↦ elim (find_by_id id w.db) [
        | none ↦ (err not_found, w)
        | some task ↦ (check_task token task, w)
      ]
    ]
  ]

  -- The two endpoints: the guard, then the service on the task that it attached.
  unfoldable pub post_result : Calls → CallbackRequest → SubmitResultDto → App World Unit
  post_result c req dto w =
      let (r, w') = can_activate req w in continue r (λ task. submit_result c task dto) w'

  unfoldable pub patch_progress : Calls → CallbackRequest → UpdateProgressDto → App World Unit
  patch_progress c req dto w =
      let (r, w') = can_activate req w in continue r (λ task. update_progress_of c task dto) w'

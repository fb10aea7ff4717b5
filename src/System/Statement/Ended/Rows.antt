-- ===== src/System/Statement/Ended/Rows.antt =====
-- The rows of a task that has ended, and of others.
use async_long_request_proxy.Prelude.{
  ℕ, zero, suc, String, ◌≡◌, refl, sym, ap, ◌∙◌, Option, Bool, true, false, not, ◌&&◌, List, [],
  ◌∷◌, ◌==◌, take, All, Bool-cases, inl, inr, &&-true, eq_iff, arith, if_rule,
}
use async_long_request_proxy.Table.{select}
use async_long_request_proxy.Table.Keyed.{eq_sym}
use async_long_request_proxy.Tasks.Schema.{
  Time, TaskStatus, TaskError, Json, pending, processing, completed, failed, cancelled, status_in,
  is_terminal, TaskSelect,
}
use async_long_request_proxy.Delivery.Schema.{Db}
use async_long_request_proxy.Maintenance.Repository.{is_expired, id_in, ids_of}

pub record Ending : Type 0 where
  pub status : TaskStatus
  pub result : Option Json
  pub error : Option TaskError
  pub completed_at : Option Time
  pub created_at : Time

abbrev pub ending_of : TaskSelect → Ending
ending_of t = record {
  status = t.status;
  result = t.result;
  error = t.error;
  completed_at = t.completed_at;
  created_at = t.created_at;
}

module _ (id : String) (e : Ending) where
  -- The task's row, if it is still there, has ended like that.
  abbrev pub HasEnding : TaskSelect → Type 0
  HasEnding t = (t.id == id) ≡ true → ending_of t ≡ e

  abbrev pub IsEnded : Db → Type 0
  IsEnded db = All HasEnding db.tasks

  -- A row whose status is in `from` is not the ended task's.
  pub not_ended :
      (from : List TaskStatus) (t : TaskSelect)
      → status_in e.status from ≡ false
      → HasEnding t
      → status_in t.status from ≡ true
      → (t.id == id) ≡ false
  not_ended from t closed h m = elim (Bool-cases (t.id == id)) [
    | inl same ↦
        let open_too : status_in e.status from ≡ true = rw (← ap (λ x. x.status) (h same)) m in cc
    | inr other ↦ other
  ]

  pub other-HasEnding :
      (t : TaskSelect) (u : TaskSelect) → u.id ≡ t.id → (t.id == id) ≡ false → HasEnding u
  other-HasEnding t u same other k = let wrong : (t.id == id) ≡ true = rw (← same) k in cc

  module _ (closed : status_in e.status (pending ∷ processing ∷ []) ≡ false) where
    -- Other rows are not expired ones of the task.
    abbrev pub Other : TaskSelect → Type 0
    Other t = (t.id == id) ≡ false

    pub select-Other :
        (locked : String → Bool) (now : Time) (ts : List TaskSelect)
        → All HasEnding ts
        → All Other (select (λ t. is_expired now t && not (locked t.id)) ts)
    unfolding select
    select-Other locked now [] h = tt
    select-Other locked now (t ∷ ts) h =
        if_rule (All Other) (is_expired now t && not (locked t.id)) _ _
          (λ m.
            let (due, _) = &&-true (is_expired now t) (not (locked t.id)) m in
            let (still_open, _) = &&-true (status_in t.status (pending ∷ processing ∷ [])) _ due in
            (
              not_ended (pending ∷ processing ∷ []) t closed h.0 still_open,
              select-Other locked now ts h.1,
            ))
          (λ _. select-Other locked now ts h.1)

    pub ids_of-Other :
        (batch : ℕ) (ts : List TaskSelect)
        → All Other ts
        → id_in (ids_of (take batch ts)) id ≡ false
    ids_of-Other zero ts h = refl
    ids_of-Other (suc n) [] h = refl
    ids_of-Other (suc n) (t ∷ ts) h = ground (arith, eq_sym id t.id, h.0, ids_of-Other n ts h.1)

    pub not_in :
        (ids : List String) (j : String)
        → id_in ids j ≡ true
        → id_in ids id ≡ false
        → (j == id) ≡ false
    not_in ids j m n = elim (Bool-cases (j == id)) [
      | inl e ↦
          let same : id_in ids j ≡ id_in ids id = ap (id_in ids) ((eq_iff j id).0 e) in
          let wrong : true ≡ false = sym m ∙ same ∙ n in cc
      | inr e ↦ e
    ]

pub terminal_closed :
    (st : TaskStatus) → is_terminal st ≡ true → status_in st (pending ∷ processing ∷ []) ≡ false
terminal_closed pending h = cc
terminal_closed processing h = cc
terminal_closed completed h = refl
terminal_closed failed h = refl
terminal_closed cancelled h = refl
